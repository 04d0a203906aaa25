-- ===== src/Access/Broker.antt =====
-- internal/access/broker.go: who may connect, and which connection is a device's current one.
use iolink.Base.{
  ℕ, ◌==◌, nat_eq, text_eq, Bool, true, false, ◌&&◌, not, leb, ltb, Text, is_empty, ℤ, pos, ltb_ℤ,
  int_eq, Option, none, some, lookup,
}
use iolink.Access.Topics.{valid_client_id, check_acl}
use iolink.Access.Sessions.{Client, Session, Server, is_client, is_revoked, device_for}

-- `isCurrent`, with the device's revision where the authenticator knows it.
unfoldable pub fits_revision : Session → Option ℤ → Bool
fits_revision ss none = true
fits_revision ss (some r) = not (ltb_ℤ r (pos 0)) && r == ss.revision

unfoldable pub is_current : Server → Client → Option ℤ → Bool
unfolding device_for fits_revision
is_current s cl revision = elim (device_for s cl) [
  | none ↦ false
  | some dev ↦ elim (lookup dev s.sessions) [
    | none ↦ false
    | some ss ↦ is_client ss.client cl && fits_revision ss revision
  ]
]

unfoldable pub on_acl_check : Server → Client → Option ℤ → Text → Bool → Bool
unfolding is_current device_for
on_acl_check s cl revision topic write =
    is_current s cl revision
    && elim (device_for s cl) [ none ↦ false | some dev ↦ check_acl dev topic write ]

-- What `OnConnectAuthenticate` reads of the packet.
pub record ConnectPacket : Type 0 where
  pub username : Text
  pub client_id : Text
  pub will_flag : Bool
  pub clean : Bool
  pub protocol_version : ℕ
  pub expiry_flag : Bool
  pub expiry_interval : ℕ

unfoldable pub on_connect_authenticate : ConnectPacket → Option Text → (Text → Option ℤ) → Bool
on_connect_authenticate pk resolved revision_of =
    not pk.will_flag
    && not (is_empty pk.username)
    && valid_client_id pk.client_id
    && pk.clean
    && not (leb 5 pk.protocol_version && pk.expiry_flag && ltb 0 pk.expiry_interval)
    && elim resolved [ none ↦ false | some dev ↦ not (is_revoked (revision_of dev)) ]
