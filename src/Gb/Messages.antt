-- ===== src/Gb/Messages.antt =====
-- internal/gb/contracts.go: `HandleMessage` and `HandleSIPMessage`. The store of devices and the
-- clock are parameters, and the service has them.
use iolink.Base.{
  ◌*◌, ◌==◌, text_eq, Bool, ◌&&◌, not, if◌then◌else◌, ltb, Text, text, length, [], ℕ, GoError,
  plain, gb, invalid_request, unknown_device, peer_not_allowed, xml_too_large,
}
use iolink.Media.{Time}
use iolink.World.{M, ◌>>=◌, ◌>>◌, lift, return, require, on_err}
use iolink.Gb.Peers.{
  Peer, peer_eq, peer_valid, Device, allows_peer, Registration, Status, online, offline, is_online,
  status_at,
}
use iolink.Gb.Xml.{XmlMessage, XmlDecoder, is_keepalive, parse_message_xml}

pub record Inbox (W : Type 0) : Type 0 where
  pub decoder : XmlDecoder
  pub lookup_device : Text → M W Device
  pub lookup_peer : Peer → M W Registration
  pub mark_keepalive : Text → Peer → Time → Text → M W (Unit {0})
  pub clock : M W Time

pub record MessageResult : Type 0 where
  pub message : XmlMessage
  pub status : Status

abbrev pub max_sip_message_size : ℕ
max_sip_message_size = 64 * 1024

abbrev unknown : GoError → GoError
unknown e = plain (gb unknown_device)

abbrev pub reported_status : XmlMessage → Status
reported_status message = if message.status == text "OK" then online else offline

-- The registration that stands for the source.
unfoldable pub is_sender : Registration → XmlMessage → Peer → Bool
is_sender registration message source =
    registration.device_id == message.device_id && registration.peer == source

module _ {W : Type 0} (d : Inbox W) where
  -- The end of `HandleMessage`, for a device that is online.
  unfoldable pub take_message : Peer → XmlMessage → Registration → Time → M W MessageResult
  take_message source message registration now =
      if is_keepalive message.cmd_type
      then (do
        on_err unknown (d.mark_keepalive message.device_id source now message.status)
        return (record { message = message; status = reported_status message }))
      else return (record { message = message; status = status_at registration now })

  -- The checks of the sender.
  unfoldable pub handle_parsed : Peer → XmlMessage → M W MessageResult
  unfolding is_sender take_message
  handle_parsed source message = do
    device ← on_err unknown (d.lookup_device message.device_id)
    require (allows_peer device source.addr) (plain (gb peer_not_allowed))
    registration ← on_err unknown (d.lookup_peer source)
    require (is_sender registration message source) (plain (gb unknown_device))
    now ← d.clock
    require (is_online (status_at registration now)) (plain (gb unknown_device))
    take_message source message registration now

  unfoldable pub handle_message : Peer → Text → M W MessageResult
  unfolding handle_parsed
  handle_message source raw = do
    require (peer_valid source) (plain (gb invalid_request))
    message ← lift (parse_message_xml d.decoder raw [])
    handle_parsed source message

  unfoldable pub handle_sip_message : Text → Peer → Text → M W MessageResult
  unfolding handle_message
  handle_sip_message method source raw = do
    require (method == text "MESSAGE") (plain (gb invalid_request))
    require (not (ltb max_sip_message_size (length raw))) (plain (gb xml_too_large))
    handle_message source raw
