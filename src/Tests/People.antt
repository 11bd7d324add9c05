-- ===== src/Tests/People.antt =====
-- A typed code, and accounts of every role.
use code_scout.Common.{
  ℕ, ◌≡◌, ◌≢◌, ◌↔◌, ◌⊎◌, inl, inr, refl, true, false, [], none, some, codes, length,
}
use code_scout.Domain.Pairing.{
  new_pairing_code, draw_letters, drawn_letter, write_letter, letter, pairing_code_length,
  normalise_pairing_code,
}
use code_scout.Domain.Pairing.Typed.{Typed, done, typed_letter, typed_blank, typing_keeps_code}
use code_scout.Domain.Roles.{Role, super_admin, admin, member, User, ProjectMember, maintainer}
use code_scout.Domain.Access.{
  resolve_project_access, can_manage_account, resolve_project_access_lem, can_manage_account_lem,
  Above, Maintains,
}
use code_scout.Tests.Scenes.{drawn}

six_drawn : new_pairing_code (drawn 0) ≡ some (codes "234679")
unfolding new_pairing_code draw_letters drawn_letter write_letter letter
six_drawn = refl

six_with_dash : Typed (codes "234679") (codes "234-679")
six_with_dash = typed_letter (inl refl) (
    typed_letter (inl refl) (
      typed_letter (inl refl) (
        typed_blank (inr refl)
          (typed_letter (inl refl) (typed_letter (inl refl) (typed_letter (inl refl) done))))))

typing_keeps_code_example :
    (length (codes "234679") ≡ pairing_code_length)
    × (normalise_pairing_code (codes "234-679") ≡ codes "234679")
typing_keeps_code_example = typing_keeps_code (drawn 0) six_drawn six_with_dash

abbrev pub person : ℕ → Role → User
person id role = record {
  id = id;
  name = codes "Ada";
  email = codes "ada@example.org";
  role = role;
  password_hash = [];
  must_change_password = false;
}

abbrev pub upkeep : ProjectMember
upkeep = record { user_id = 2; project_id = 3; level = maintainer }

resolve_project_access_lem_example :
    let a = resolve_project_access (some (person 2 admin)) (some upkeep) in
    ((a.can_read ≡ true) ↔ ((admin ≡ super_admin) ⊎ (some upkeep ≢ none)))
    × ((a.can_manage ≡ true) ↔ ((admin ≡ super_admin) ⊎ Maintains (some upkeep)))
    × ((a.can_delete ≡ true)
        ↔ ((admin ≡ super_admin) ⊎ (Maintains (some upkeep) × (admin ≡ admin))))
resolve_project_access_lem_example = resolve_project_access_lem (person 2 admin) (some upkeep)

can_manage_account_lem_example :
    ((can_manage_account (some (person 1 admin)) (some (person 2 member)) ≡ true)
      ↔ (((person 1 admin).id ≢ (person 2 member).id) × Above admin member))
    × (¬ (
        (can_manage_account (some (person 1 admin)) (some (person 2 member)) ≡ true)
        × (can_manage_account (some (person 2 member)) (some (person 1 admin)) ≡ true)))
can_manage_account_lem_example = can_manage_account_lem (person 1 admin) (person 2 member)
