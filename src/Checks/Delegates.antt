-- ===== src/Checks/Delegates.antt =====
-- The projects of a delegate, on a storage with a person and a project.
use radicle_client_services.Base.{
  Text, lit, ℕ, ◌≤◌, ◌==◌, any, length, Has, none, List, [], ◌∷◌, ok, ◌≡◌, refl,
}
use radicle_client_services.Extern.Identity.{SomeIdentity, project, person, indirect}
use radicle_client_services.HttpApi.Pages.{page_of, query_page}
use radicle_client_services.HttpApi.Commits.{collect}
use radicle_client_services.HttpApi.Head.{default_delegate, get_head_commit}
use radicle_client_services.HttpApi.Projects.{
  Info, Identities, to_option, filter_map, info_of, is_delegate, delegate_info, delegates_projects,
}
use radicle_client_services.HttpApi.Projects.Delegates.{IsDelegated, delegates_projects-IsDelegated}
use radicle_client_services.Checks.Toy.{alice, peers, lookup, Disk, repo, empty_disk}
use radicle_client_services.Checks.Api.{api, info}

abbrev documents : List (ℕ × SomeIdentity peers Text)
documents =
    (0, person (lit "p") (lit "ann") (alice ∷ []))
    ∷ (1, project (lit "urn") (lit "acme") none (indirect (lit "p") (alice ∷ []) ∷ []))
    ∷ (2, project (lit "other") (lit "b") none [])
    ∷ []

abbrev disk : Disk
disk = record empty_disk { refs = (lit "remote", 5) ∷ []; documents = documents }

lists : delegates_projects repo api disk (lit "/git") (lit "p") none none ≡ ok (info ∷ [])
unfolding delegates_projects collect query_page page_of filter_map delegate_info is_delegate any
    info_of to_option get_head_commit default_delegate lookup ◌==◌
lists = refl

delegates_projects-IsDelegated_example :
    (length {A = Info repo api} (info ∷ []) ≤ 10)
    × ((ids : Identities repo api) × (repo.list_identities disk ≡ ok ids)
        × ((i : Info repo api) → Has i (info ∷ []) → IsDelegated repo api disk (lit "p") ids i))
delegates_projects-IsDelegated_example =
    delegates_projects-IsDelegated repo api disk (lit "p") (lit "/git") none none (info ∷ []) lists
