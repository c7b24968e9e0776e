-- ===== src/Roles/Members.antt =====
-- Who is listed where in frontend/src/components/servers/ServerMembersSidebar.tsx and
-- frontend/src/components/servers/InviteMemberDialog.tsx.
use bu3li_comms.Prelude.{
  String, true, not, ◌≡◌, refl, ap, ap₂, ◌∙◌, ◌↔◌, List, [], ◌∷◌, ◌++◌, map, filter, includes, In,
  In-filter, Bool-cases, inl, inr,
}
use bu3li_comms.Server.{ServerMember}
use bu3li_comms.Http.Endpoints.{User}
use bu3li_comms.Roles.{is_shown_online, group_members, candidates}

snoc_append :
    (xs : List ServerMember) (y : ServerMember) (ys : List ServerMember)
    → (xs ++ y ∷ []) ++ ys ≡ xs ++ y ∷ ys
snoc_append [] y ys = refl
snoc_append (x ∷ xs) y ys = ap (λ zs. x ∷ zs) (snoc_append xs y ys)

append_nil : (xs : List ServerMember) → xs ≡ xs ++ []
append_nil [] = refl
append_nil (x ∷ xs) = ap (λ zs. x ∷ zs) (append_nil xs)

module _ (user : String) (online_ids : List String) where
  group_from :
      (online offline ms : List ServerMember)
      → group_members user online_ids online offline ms ≡ (
        online ++ filter (is_shown_online user online_ids) ms,
        offline ++ filter (λ m. not (is_shown_online user online_ids m)) ms,
      )
  unfolding group_members
  group_from online offline [] = ap₂ (λ x y. (x, y)) (append_nil online) (append_nil offline)
  group_from online offline (m ∷ ms) = elim (Bool-cases (is_shown_online user online_ids m)) [
    | inl e ↦ rw (e) (
        group_from (online ++ m ∷ []) offline ms
        ∙ ap (λ x. (x, offline ++ filter (λ y. not (is_shown_online user online_ids y)) ms))
            (snoc_append online m (filter (is_shown_online user online_ids) ms)))
    | inr e ↦ rw (e) (
        group_from online (offline ++ m ∷ []) ms
        ∙ ap (λ x. (online ++ filter (is_shown_online user online_ids) ms, x))
            (snoc_append offline m (filter (λ y. not (is_shown_online user online_ids y)) ms)))
  ]

  -- Every member is listed exactly once, in the order of the members: as online if it is the user or is
  -- known to be online, else as offline.
  pub group_members_lem :
      (ms : List ServerMember)
      → (group_members user online_ids [] [] ms ≡ (
        filter (is_shown_online user online_ids) ms,
        filter (λ m. not (is_shown_online user online_ids m)) ms,
      ))
  group_members_lem ms = group_from [] [] ms

-- The users offered for an invitation are those found who are not members.
pub In-candidates :
    (members : List ServerMember) (results : List User) (u : User)
    → In u (candidates members results)
      ↔ (In u results × (not (includes u.id (map (λ m. m.user_id) members)) ≡ true))
unfolding candidates
In-candidates members results u =
    In-filter (λ x. not (includes x.id (map (λ m. m.user_id) members))) u results
