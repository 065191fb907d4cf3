-- ===== src/Rbac/Tests.antt =====
-- An engine with the anonymous user, and one binding of a group.
use simple_registry.Base.{
  true, false, codes, ◌≡◌, ◌↔◌, refl, first, some, ◌==◌, nat_eq, list_eq, list_beq, any, contains,
}
use simple_registry.Sample.{sample_engine}
use simple_registry.Rbac.{
  User, is_allowed, user_allowed, binding_matches, role_matches, subject_matches,
}
use simple_registry.Rbac.Laws.{IsGranted, is_allowed_iff}

ann_reads :
    is_allowed sample_engine (codes "ann") (codes "blobs") (codes "library") (codes "GET") ≡ true
unfolding is_allowed user_allowed binding_matches role_matches subject_matches first any contains
    list_beq
ann_reads = refl

ann_writes_not :
    is_allowed sample_engine (codes "ann") (codes "blobs") (codes "library") (codes "PUT") ≡ false
unfolding is_allowed user_allowed binding_matches role_matches subject_matches first any contains
    list_beq
ann_writes_not = refl

is_allowed_iff_example :
    (is_allowed sample_engine (codes "ann") (codes "blobs") (codes "library") (codes "GET") ≡ true)
    ↔ ((u : User) × (first (λ v. v.name == codes "ann") sample_engine.users ≡ some u)
        × IsGranted sample_engine u (codes "blobs") (codes "library") (codes "GET"))
is_allowed_iff_example =
    is_allowed_iff sample_engine (codes "ann") (codes "blobs") (codes "library") (codes "GET")
