-- ===== src/ChannelList/Controls.antt =====
-- Who is offered what in frontend/src/components/servers/ServerChannelList.tsx.
use bu3li_comms.Prelude.{Bool, true, false, ◌≡◌, ◌↔◌, In, arith}
use bu3li_comms.Server.{ServerPermissions}
use bu3li_comms.ChannelList.{delete_yes, delete_server, leave_yes, leave_server, header_controls}

-- The header offers to delete the server, asking first, only to its owner, and to leave it only to the
-- others.
pub header_controls_lem :
    (p : ServerPermissions) (confirming : Bool)
    → (In delete_yes (header_controls p confirming) ↔ ((p.is_owner ≡ true) × (confirming ≡ true)))
      × (In delete_server (header_controls p confirming)
          ↔ ((p.is_owner ≡ true) × (confirming ≡ false)))
      × (In leave_yes (header_controls p confirming) ↔ ((p.is_owner ≡ false) × (confirming ≡ true)))
      × (In leave_server (header_controls p confirming)
          ↔ ((p.is_owner ≡ false) × (confirming ≡ false)))
unfolding header_controls
header_controls_lem p confirming = ground arith
