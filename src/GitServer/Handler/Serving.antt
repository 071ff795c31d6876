-- ===== src/GitServer/Handler/Serving.antt =====
-- The headers of the response, as `git_handler` of git-server/src/lib.rs puts them together.
use radicle_client_services.Base.{
  Text, Assoc, get, insert, get-insert, eq_refl, List, [], ◌∷◌, ◌++◌, some, ok, All, ◌≡◌, refl,
}
use radicle_client_services.Extern.Backend.{Backend}
use radicle_client_services.GitServer.Handler.{insert_values}

-- Each value is put in place of the one before it: of a header with several values, the response
-- has the last, if the name and all of them are valid.
pub insert_values-last :
    (B : Backend) (name header : Text) (vs : List Text) (v : Text) (out : Assoc Text)
    → B.header_name name ≡ some header
    → All (λ w. B.header_value w ≡ some w) (vs ++ v ∷ [])
    → (out' : Assoc Text) × (insert_values B name (vs ++ v ∷ []) out ≡ ok out')
      × (get header out' ≡ some v)
unfolding insert_values
insert_values-last B name header [] v out named (valid, _) = (
  insert header v out,
  rw (named, valid) refl,
  rw (get-insert header header v out, eq_refl header) refl,
)
insert_values-last B name header (w ∷ vs) v out named (valid, valids) =
    let (out', inserted, last) =
      insert_values-last B name header vs v (insert header w out) named valids in
    (out', rw (named, valid) inserted, last)
