-- ===== src/Tests/Traces.antt =====
-- A data packet and a packet without data, traced.
use whirl_matrix.Base.{◌≡◌, false, none, some, [], ◌∷◌}
use whirl_matrix.Network.{Frame, reset_packet}
use whirl_matrix.Trace.{Formats, Request, is_data, trace}
use whirl_matrix.Trace.Writer.{string, array, object, no_more, element, closed, member, calls}
use whirl_matrix.Trace.Document.{trace_lem, packet_of}
use whirl_matrix.Tests.Packets.{old_packet}

abbrev a_request : Request
a_request = record {
  id = 3;
  trace_id = "t";
  method = record { service = "KV"; name = "Get" };
  input = "k";
}

-- Each message is the one request.
abbrev formats : Formats
formats = record {
  as_request = λ m. some a_request;
  as_response = λ m. none;
  is_binary = false;
  parse = λ m. object (member "key" (string m) closed);
}

abbrev sent : Frame
sent = record {
  header = record { source_host = "Client-1"; dest_host = "Server-1"; send_time = 4 };
  packet = old_packet;
}

abbrev refused : Frame
refused = record sent {
  packet = record {
    header = record old_packet.header { type = reset_packet };
    message = "<reset>";
  };
}

trace_lem_example :
    trace formats ((9, sent) ∷ (12, refused) ∷ [])
    ≡ calls (array (element (packet_of formats 9 sent) no_more))
unfolding is_data
trace_lem_example = trace_lem formats ((9, sent) ∷ (12, refused) ∷ [])
