-- ===== src/Publisher/Delivery.antt =====
-- Which packets publish delivers.
use port_agent.Prelude.{ℕ, ◌≡◌, refl, arith, false, Bytes, [], Option, some}
use port_agent.Timestamp.{Timestamp}
use port_agent.Packet.{PacketType, default_base}
use port_agent.Packet.PortAgentPacket.{PortAgentPacket, ok, construct, new_packet}
use port_agent.Publisher.{Publisher, view, unknown_packet_type}
use port_agent.Publisher.Routing.{Surroundings, publish, catch_error, has_case}

construct_base :
    (heap : ℕ → ℕ) (now : Timestamp) (type : PacketType) (stamp : Timestamp)
    (payload : Option Bytes) (size : ℕ) (p : PortAgentPacket)
    → construct heap now type stamp payload size ≡ ok p
    → p.base ≡ default_base
unfolding construct new_packet
construct_base heap now type stamp payload size p h = ground arith

-- Of a packet that the constructor made, a publisher of any class sends nothing and reports an
-- unknown packet type: the type that publish reads is the base class's.
pub publish-construct :
    (heap : ℕ → ℕ) (now : Timestamp) (type : PacketType) (stamp : Timestamp)
    (payload : Option Bytes) (size : ℕ) (p : PortAgentPacket) (ascii : PortAgentPacket → Bytes)
    (env : Surroundings) (publisher : Publisher)
    → construct heap now type stamp payload size ≡ ok p
    → publish env publisher (view ascii p)
      ≡ ([], false, record publisher { error = some unknown_packet_type })
unfolding publish view default_base has_case catch_error
publish-construct heap now type stamp payload size p ascii env publisher h =
    rw (construct_base heap now type stamp payload size p h) refl
