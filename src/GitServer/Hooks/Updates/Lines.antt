-- ===== src/GitServer/Hooks/Updates/Lines.antt =====
-- The lines that git writes for the hooks are read back, and what happens on others.
use radicle_client_services.Base.{
  Text, split, split-append, split-Lacks, Lacks, All, List, [], ◌∷◌, ◌++◌, map, ok, panic, ◌≡◌,
  refl,
}
use radicle_client_services.Extern.Peers.{Peers}
use radicle_client_services.Extern.Monorepo.{Monorepo, HasOids}
use radicle_client_services.GitServer.Hooks.Updates.{read, Update, parse_update, read_updates}

module _ {P : Peers} (G : Monorepo P) where
  -- sha1-old SP sha1-new SP refname, as the comment of pre_receive.rs has it
  abbrev pub update_line : Update G → Text
  update_line (refname, old, new) =
      G.oid_to_string old ++ b' ' ∷ (G.oid_to_string new ++ b' ' ∷ refname)

  -- no reference has a blank in its name
  abbrev pub HasPlainName : Update G → Type 0
  HasPlainName u = Lacks b' ' u.0

  module _ (O : HasOids G) where
    split-update_line :
        (u : Update G)
        → HasPlainName u
        → split b' ' (update_line u) ≡ G.oid_to_string u.1 ∷ G.oid_to_string u.2 ∷ u.0 ∷ []
    split-update_line (refname, old, new) h =
        rw
          (split-append b' ' (G.oid_to_string old) (G.oid_to_string new ++ b' ' ∷ refname)
            (O.no_blank old))
          (rw (split-append b' ' (G.oid_to_string new) refname (O.no_blank new))
            (rw (split-Lacks b' ' refname h)))

    parse-update_line : (u : Update G) → HasPlainName u → parse_update G (update_line u) ≡ ok u
    unfolding parse_update
    parse-update_line u h = rw (split-update_line u h) (rw (O.from-to u.1) (rw (O.from-to u.2)))

    -- The updates whose lines git writes are the updates that the hooks read, in order.
    pub read_updates-update_line :
        (us : List (Update G))
        → All HasPlainName us
        → read_updates G (map (λ u. read (update_line u)) us) ≡ ok us
    unfolding read_updates
    read_updates-update_line [] h = refl
    read_updates-update_line (u ∷ us) (h, hs) =
        rw (parse-update_line u h) (rw (read_updates-update_line us hs))

    -- A line that ends behind the old or the new object id panics.
    pub parse_update-short :
        (old new : G.Oid)
        → (parse_update G (G.oid_to_string old) ≡ panic)
          × (parse_update G (G.oid_to_string old ++ b' ' ∷ G.oid_to_string new) ≡ panic)
    unfolding parse_update
    parse_update-short old new = (
      rw (split-Lacks b' ' (G.oid_to_string old) (O.no_blank old)) (rw (O.from-to old)),
      rw (split-append b' ' (G.oid_to_string old) (G.oid_to_string new) (O.no_blank old)) (
          rw (split-Lacks b' ' (G.oid_to_string new) (O.no_blank new))
            (rw (O.from-to old) (rw (O.from-to new)))),
    )
