-- ===== src/Network.antt =====
-- matrix/network: packets, frames, one-way links and the network that steps through their events.
-- `Link*` is an index into `links`, `IServer*` an index into `servers`. The flight time of a packet is
-- chosen by the time model: it is an argument. What a server does with a packet stands in Transport.
pub mod Links
pub mod Steps
pub mod Faults
pub mod Coherent
pub mod Rows
pub mod Topology
pub mod Delivers
pub mod Agree
pub mod Sends
pub mod Resumed
pub mod Healed
use Prim.Native.String.{String}
use whirl_matrix.Base.{ℕ, Bool, true, false, Option, List, ltb, ◌≡◌, ◌⊎◌, arith}
use whirl_matrix.PriorityQueue.{PriorityQueue, StrictWeak}

-- packet.hpp
pub data PacketType : Type 0 where
  data_packet reset_packet ping_packet : PacketType

pub record Header : Type 0 where
  pub type : PacketType
  pub source_port : ℕ
  pub dest_port : ℕ
  pub ts : ℕ

pub record Packet : Type 0 where
  pub header : Header
  pub message : String

-- frame.hpp
pub record FrameHeader : Type 0 where
  pub source_host : String
  pub dest_host : String
  pub send_time : ℕ

pub record Frame : Type 0 where
  pub header : FrameHeader
  pub packet : Packet

pub record FrameEvent : Type 0 where
  pub frame : Frame
  pub time : ℕ

pub record LinkEvent : Type 0 where
  pub time : ℕ
  pub link : ℕ

-- `operator<` compares the times.
pub time_asym : (a b : ℕ) → ltb a b ≡ true → ltb b a ≡ false
time_asym a b h = ground arith

pub time_cotrans : (a b c : ℕ) → ltb a b ≡ true → (ltb a c ≡ true) ⊎ (ltb c b ≡ true)
time_cotrans a b c h = ground arith

instance abbrev pub frame_events : StrictWeak FrameEvent
frame_events = record {
  less = λ a b. ltb a.time b.time;
  asym = λ a b. time_asym a.time b.time;
  cotrans = λ a b c. time_cotrans a.time b.time c.time;
}

instance abbrev pub link_events : StrictWeak LinkEvent
link_events = record {
  less = λ a b. ltb a.time b.time;
  asym = λ a b. time_asym a.time b.time;
  cotrans = λ a b c. time_cotrans a.time b.time c.time;
}

-- link.hpp
pub record Link : Type 0 where
  pub start : ℕ
  pub end : ℕ
  pub frames : PriorityQueue FrameEvent
  pub paused : Bool
  pub opposite : Option ℕ

pub record Network : Type 0 where
  pub servers : List String
  pub links : List Link
  pub events : PriorityQueue LinkEvent
  pub frames_log : List Frame
  pub digest : ℕ
