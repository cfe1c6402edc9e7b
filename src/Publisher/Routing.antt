-- ===== src/Publisher/Routing.antt =====
-- The handlers of the publisher classes, and Publisher::publish.
use port_agent.Prelude.{
  ℕ, Bool, true, false, ◌&&◌, if◌then◌else◌, ◌==◌, Bytes, [], ◌++◌, none, some, length, take,
}
use port_agent.Packet.{
  PacketType, unknown, data_from_instrument, data_from_rsn, data_from_driver, port_agent_command,
  instrument_command, port_agent_heartbeat,
}
use port_agent.Publisher.{
  PublisherType, publisher_unknown, publisher_driver_command, publisher_driver_data,
  publisher_instrument_command, publisher_instrument_data, publisher_file, publisher_udp,
  publisher_tcp, publisher_telnet_sniffer, Publisher, PacketView, Answer, returned, raised,
  unknown_packet_type, Device, write, write_if_connected,
}

-- What a handler does: `return true`, logPacket of FilePointerPublisher, of
-- InstrumentPublisher and of LogPublisher, and the two methods of TelnetSnifferPublisher.
pub data Action : Type 0 where
  ignore log_packet log_payload log_to_file sniff_instrument sniff_observatory : Action

-- The handler that publish reaches for each packet type. Three classes declare
-- `handleHearteat`, which overrides nothing, so their heartbeats reach FilePointerPublisher's
-- handler; so does that of the instrument command publisher, which declares none.
unfoldable pub handler : PublisherType → PacketType → Action
handler publisher_driver_command port_agent_command = ignore
handler publisher_driver_command t = log_packet
handler publisher_driver_data data_from_driver = ignore
handler publisher_driver_data port_agent_command = ignore
handler publisher_driver_data instrument_command = ignore
handler publisher_driver_data t = log_packet
handler publisher_instrument_command instrument_command = log_payload
handler publisher_instrument_command port_agent_heartbeat = log_packet
handler publisher_instrument_command t = ignore
handler publisher_instrument_data data_from_driver = log_payload
handler publisher_instrument_data t = ignore
handler publisher_file port_agent_heartbeat = ignore
handler publisher_file t = log_to_file
handler publisher_telnet_sniffer data_from_instrument = sniff_instrument
handler publisher_telnet_sniffer data_from_driver = sniff_observatory
handler publisher_telnet_sniffer port_agent_heartbeat = log_packet
handler publisher_telnet_sniffer t = ignore
handler publisher_udp t = log_packet
handler publisher_tcp t = log_packet
handler publisher_unknown t = ignore

-- What publishing meets outside: the peer, whether the socket is connected, and what a handler
-- that returns no value leaves for its caller.
pub record Surroundings : Type 0 where
  pub device : Device
  pub connected : Bool
  pub junk : Bool

-- The virtual write.
unfoldable pub write_virtual :
    Surroundings → (call : ℕ) → Publisher → Bytes → (size : ℕ) → Bytes × Answer
write_virtual env call p buffer size = elim p.publisher_type [
  | publisher_driver_command ↦
      write_if_connected (env.device call) env.connected env.junk p buffer size
  | _ ↦ write (env.device call) p buffer size
]

-- A handler without a return statement.
abbrev pub forget : Bool → Bytes × Answer → Bytes × Answer
forget junk (out, returned b) = (out, returned junk)
forget junk (out, raised e) = (out, raised e)

-- One statement after another, unless the first raises. The first value is dropped.
abbrev pub then_write : Bytes × Answer → Bytes × Answer → Bytes × Answer
then_write (out, returned b) (more, answer) = (out ++ more, answer)
then_write (out, raised e) rest = (out, raised e)

-- The value of the first statement, after the second.
abbrev pub keep_value : Bytes × Answer → Bytes × Answer → Bytes × Answer
keep_value (out, returned b) (more, returned c) = (out ++ more, returned b)
keep_value (out, returned b) (more, raised e) = (out ++ more, raised e)
keep_value (out, raised e) rest = (out, raised e)

-- publishDataFromObservatory: the payload between prefix and suffix, where one of them is set.
unfoldable pub publish_data_from_observatory :
    Surroundings → Publisher → PacketView → Bytes × Answer
publish_data_from_observatory env p v =
    let body = write_virtual env 1 p v.payload v.payload_size in
    let end =
      if length p.suffix == 0
      then ([], returned true)
      else write_virtual env 2 p p.suffix (length p.suffix) in
    if (length p.prefix == 0) && (length p.suffix == 0)
    then ([], returned true)
    else (if length p.prefix == 0
        then keep_value body end
        else then_write (write_virtual env 0 p p.prefix (length p.prefix)) (keep_value body end))

unfoldable pub run_action : Surroundings → Action → Publisher → PacketView → Bytes × Answer
unfolding write_virtual publish_data_from_observatory
run_action env ignore p v = ([], returned true)
run_action env log_packet p v =
    if p.ascii_out
    then write_virtual env 0 p v.ascii (length v.ascii)
    else write_virtual env 0 p v.bytes v.packet_size
run_action env log_payload p v = write_virtual env 0 p v.payload v.payload_size
run_action env log_to_file p v =
    (if p.ascii_out then v.ascii else take v.packet_size v.bytes, returned true)
run_action env sniff_instrument p v =
    forget env.junk (write_virtual env 0 p v.payload v.payload_size)
run_action env sniff_observatory p v = forget env.junk (publish_data_from_observatory env p v)

-- The types that the switch of publish has a case for.
unfoldable pub has_case : PacketType → Bool
has_case unknown = false
has_case data_from_rsn = false
has_case _ = true

-- What publish makes of an exception: it is stored, and false is returned.
unfoldable pub catch_error : Publisher → Bytes × Answer → Bytes × Bool × Publisher
catch_error p (out, returned b) = (out, b, record p { error = none })
catch_error p (out, raised e) = (out, false, record p { error = some e })

-- Publisher::publish: the bytes that leave, the value, and the publisher with its error.
unfoldable pub publish : Surroundings → Publisher → PacketView → Bytes × Bool × Publisher
unfolding has_case handler run_action catch_error
publish env p v = catch_error p (
    if has_case v.packet_type
    then run_action env (handler p.publisher_type v.packet_type) p v
    else ([], raised unknown_packet_type))
