-- ===== src/Extern/Keystore.antt =====
-- librad's keys and key store, radicle_common's profiles, and the files of std.
use radicle_client_services.Base.{Text, ℕ, Option, some, [], Outcome, ok, ◌≡◌}
use radicle_client_services.Base.Action.{Action}

pub record Keystore : Type 1 where
  -- the disk, which the calls below read and change
  pub Disk : Type 0
  -- std::io::Error; io::Error::new of the kinds InvalidData and PermissionDenied
  pub IoError : Type 0
  pub invalid_data : Text → IoError
  pub permission_denied : Text → IoError
  -- File::open and read_to_end
  pub read_file : Disk → Text → Outcome IoError Text
  -- File::create, File::metadata, fs::set_permissions with a mode, and write_all to a new file
  pub create_file : Text → Action Disk IoError (Unit {0})
  pub metadata : Disk → Text → Outcome IoError (Unit {0})
  pub set_mode : Text → ℕ → Action Disk IoError (Unit {0})
  pub write_all : Text → Text → Action Disk IoError (Unit {0})
  -- the content and the mode of a file
  pub content : Disk → Text → Option Text
  pub mode : Disk → Text → Option ℕ
  -- SecretKey: from_bytes_and_meta, as_ref, a new one, and FileStorage::get_key with a passphrase
  pub SecretKey : Type 0
  pub from_bytes : Text → Outcome Text SecretKey
  pub bytes : SecretKey → Text
  pub new_key : SecretKey
  pub get_key : Disk → Text → Text → Outcome Text SecretKey
  -- LnkHome::Root and LnkHome::default, Path::canonicalize, Profile::active, keys::pwhash and
  -- profile::create
  pub Home : Type 0
  pub Profile : Type 0
  pub root_home : Text → Home
  pub default_home : Home
  pub canonicalize : Disk → Text → Outcome Text Text
  pub active : Disk → Home → Outcome Text (Option Profile)
  pub Hash : Type 0
  pub pwhash : Text → Hash
  pub create : Home → Hash → Action Disk Text Profile
  -- keys::load_secret_key, keys::ssh_auth_sock, and ToSigner::to_signer of both
  pub Socket : Type 0
  pub BoxedSigner : Type 0
  pub load_secret_key : Disk → Profile → Text → Outcome Text SecretKey
  pub ssh_auth_sock : Disk → Outcome Text Socket
  pub signer_of_key : SecretKey → Profile → Outcome Text BoxedSigner
  pub signer_of_socket : Disk → Socket → Profile → Outcome Text BoxedSigner

-- What the key store and the file system do: a profile that was created is the active one; a key is
-- read back from its bytes; a file that was created is empty, written bytes are read back, a mode
-- that was set stays, and neither call changes what the other has set.
pub record KeepsFiles (K : Keystore) : Type 0 where
  pub create-active :
      (home : K.Home) (hash : K.Hash) (d : K.Disk) (p : K.Profile)
      → (K.create home hash d).0 ≡ ok p
      → K.active (K.create home hash d).1 home ≡ ok (some p)
  pub from_bytes-bytes : (key : K.SecretKey) → K.from_bytes (K.bytes key) ≡ ok key
  pub create_file-content :
      (path : Text) (d : K.Disk)
      → (K.create_file path d).0 ≡ ok tt
      → K.content (K.create_file path d).1 path ≡ some []
  pub set_mode-mode :
      (path : Text) (m : ℕ) (d : K.Disk)
      → (K.set_mode path m d).0 ≡ ok tt
      → K.mode (K.set_mode path m d).1 path ≡ some m
  pub set_mode-content :
      (path : Text) (m : ℕ) (d : K.Disk) → K.content (K.set_mode path m d).1 path ≡ K.content d path
  pub write_all-mode :
      (path t : Text) (d : K.Disk) → K.mode (K.write_all path t d).1 path ≡ K.mode d path
  pub write_all-read :
      (path t : Text) (d : K.Disk)
      → (K.write_all path t d).0 ≡ ok tt
      → K.read_file (K.write_all path t d).1 path ≡ ok t
