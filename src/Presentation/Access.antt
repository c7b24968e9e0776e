-- ===== src/Presentation/Access.antt =====
-- Who may do what in the settings of a server: frontend/src/pages/ServerSettingsPage.tsx and
-- frontend/src/components/servers/settings/ServerMembersSettings.tsx.
use bu3li_comms.Prelude.{
  String, Bool, true, false, ◌||◌, ◌==◌, ◌≡◌, subst, ◌↔◌, ◌⊎◌, refl, Option, none, some, List, In,
  find, arith, Bool-cases, Option-cases, inl, inr,
}
use bu3li_comms.Server.{ServerPermissions, ServerMember, ServerSummary}
use bu3li_comms.Presentation.{
  Section, overview, roles, members, sections, can_manage_anything, settings_sections,
  settings_view, remove, member_controls,
}

settings_sections_lem :
    (p : ServerPermissions)
    → (In overview (settings_sections p) ↔ (p.manage_server ≡ true))
      × (In roles (settings_sections p) ↔ (p.manage_roles ≡ true))
      × (In members (settings_sections p) ↔ ((p.manage_roles || p.kick_members) ≡ true))
settings_sections_lem p = ground arith

some_section :
    (p : ServerPermissions)
    → can_manage_anything p ≡ true
    → In overview (settings_sections p)
      ⊎ (In roles (settings_sections p) ⊎ In members (settings_sections p))
some_section p h = ground arith

-- What settings are shown, and that some are.
pub record AreAllowed (p : ServerPermissions) (ss : List Section) : Type 0 where
  pub for_server : In overview ss ↔ (p.manage_server ≡ true)
  pub for_roles : In roles ss ↔ (p.manage_roles ≡ true)
  pub for_members : In members ss ↔ ((p.manage_roles || p.kick_members) ≡ true)
  pub some_shown : In overview ss ⊎ (In roles ss ⊎ In members ss)

AreAllowed-sections :
    (p : ServerPermissions) → can_manage_anything p ≡ true → AreAllowed p (settings_sections p)
AreAllowed-sections p h =
    let (a, b, c) = settings_sections_lem p in
    record { for_server = a; for_roles = b; for_members = c; some_shown = some_section p h }

-- If the settings of a server are shown, then the server is known, and of the sections exactly those that
-- the user's permissions allow are shown, at least one.
pub settings_view-sections :
    (is_loading : Bool) (servers : Option (List ServerSummary)) (server_id : String)
    (ss : List Section)
    → settings_view is_loading servers server_id ≡ sections ss
    → (known : List ServerSummary) × (server : ServerSummary) × (servers ≡ some known)
      × (find (λ s. s.id == server_id) known ≡ some server)
      × AreAllowed server.permissions ss
unfolding settings_view
settings_view-sections true servers server_id ss h = absurd (ground arith)
settings_view-sections false none server_id ss h = absurd (ground arith)
settings_view-sections false (some known) server_id ss h =
    elim (Option-cases (find (λ s. s.id == server_id) known)) [
      | inl n ↦ absurd (ground arith)
      | inr (server, e) ↦ elim (Bool-cases (can_manage_anything server.permissions)) [
        | inr b ↦ absurd (ground arith)
        | inl b ↦
            let same : settings_sections server.permissions ≡ ss = ground arith in
            (
              known,
              server,
              refl,
              e,
              subst (AreAllowed server.permissions) same (AreAllowed-sections server.permissions b),
            )
      ]
    ]

-- A member may be removed exactly by those who may kick, and neither the owner nor oneself.
pub In-member_controls :
    (p : ServerPermissions) (current_user_id : String) (m : ServerMember)
    → In remove (member_controls p current_user_id m)
      ↔ ((m.is_owner ≡ false) × (p.kick_members ≡ true) × ((m.user_id == current_user_id) ≡ false))
unfolding member_controls
In-member_controls p current_user_id m = ground arith
