-- ===== src/Trace/Document.antt =====
-- What the tracer writes is a document: an array with an object for each packet.
use Prim.Native.String.{String}
use mathlib.Core.List.{append-nil, append_assoc}
use whirl_matrix.Base.{
  ℕ, ◌%◌, ◌^◌, ◌≡◌, refl, ap, sym, ◌∙◌, inl, inr, true, Option, none, some, List, [], ◌∷◌, ◌++◌,
  Bool-cases, if◌then◌else◌,
}
use whirl_matrix.Network.{Frame}
use whirl_matrix.Trace.Writer.{
  Call, Json, string, number, array, object, Elements, no_more, element, Members, closed, member,
  calls, calls_of_elements, calls_of_members, start_array, end_array, start_object, end_object, key,
  text,
}
use whirl_matrix.Trace.{
  Formats, Request, Response, is_data, describe, write_int, write_json, write_message,
  write_request, write_response, write_payload, deliver, deliver_all, trace,
}

abbrev int_of : ℕ → Json
int_of n = number (n % 2 ^ 32)

module _ (f : Formats) where
  -- The content of a message, or a note that it is binary.
  abbrev message_of : String → Json
  message_of m = if f.is_binary then string "<binary>" else f.parse m

  -- The result is there only in a response without an error.
  abbrev result_of : Response → Members
  result_of rsp = if rsp.is_ok then member "result" (message_of rsp.result) closed else closed

  abbrev response_of : Response → Members
  response_of rsp = member "type" (string "commute::rpc::proto::Response") (
      member "id" (int_of rsp.request_id) (
        member "trace_id" (string rsp.trace_id) (
          member "method" (string (describe rsp.method))
            (member "error" (int_of rsp.error) (result_of rsp)))))

  abbrev request_of : Request → Members
  request_of req = member "type" (string "commute::rpc::proto::Request") (
      member "id" (int_of req.id) (
        member "trace_id" (string req.trace_id) (
          member "method" (string (describe req.method))
            (member "arguments" (message_of req.input) closed))))

  -- A payload that is neither a request nor a response is empty.
  abbrev payload_of : String → Members
  payload_of m = elim (f.as_request m) [
    | some req ↦ request_of req
    | none ↦ elim (f.as_response m) [ some rsp ↦ response_of rsp | none ↦ closed ]
  ]

  abbrev pub packet_of : ℕ → Frame → Json
  packet_of now frame = object (
      member "event_type" (string "message") (
        member "source_host" (string frame.header.source_host) (
          member "dest_host" (string frame.header.dest_host) (
            member "send_time" (int_of frame.header.send_time) (
              member "receive_time" (int_of now)
                (member "payload" (object (payload_of frame.packet.message)) closed))))))

  abbrev pub packets_of : List (ℕ × Frame) → Elements
  packets_of [] = no_more
  packets_of ((now, frame) ∷ frames) =
      let rest = packets_of frames in
      if is_data frame then element (packet_of now frame) rest else rest

  message_lem : (m : String) → write_message f m ≡ calls (message_of m)
  unfolding write_message write_json calls
  message_lem m = elim (Bool-cases f.is_binary) [ inl e ↦ rw e refl | inr e ↦ rw e refl ]

  last_member :
      (k m : String) → key k ∷ write_message f m ≡ calls_of_members (member k (message_of m) closed)
  unfolding calls
  last_member k m = ap (λ l. key k ∷ l) (message_lem m ∙ sym (append-nil _))

  result_lem :
      (rsp : Response)
      → (if rsp.is_ok then key "result" ∷ write_message f rsp.result else [])
        ≡ calls_of_members (result_of rsp)
  result_lem rsp = elim (Bool-cases rsp.is_ok) [
    | inl e ↦ rw e (last_member "result" rsp.result)
    | inr e ↦ rw e (unfold calls in refl)
  ]

  response_lem : (rsp : Response) → write_response f rsp ≡ calls_of_members (response_of rsp)
  unfolding write_response write_int calls
  response_lem rsp =
      ap
        (λ l.
          key "type"
          ∷ text "commute::rpc::proto::Response"
          ∷ key "id"
          ∷ write_int rsp.request_id
          ∷ key "trace_id"
          ∷ text rsp.trace_id
          ∷ key "method"
          ∷ text (describe rsp.method)
          ∷ key "error"
          ∷ write_int rsp.error
          ∷ l)
        (result_lem rsp)

  request_lem : (req : Request) → write_request f req ≡ calls_of_members (request_of req)
  unfolding write_request write_int calls
  request_lem req =
      ap
        (λ l.
          key "type"
          ∷ text "commute::rpc::proto::Request"
          ∷ key "id"
          ∷ write_int req.id
          ∷ key "trace_id"
          ∷ text req.trace_id
          ∷ key "method"
          ∷ text (describe req.method)
          ∷ l)
        (last_member "arguments" req.input)

  kind_lem :
      (req : Option Request) (rsp : Option Response)
      → (elim req [
        | some r ↦ write_request f r
        | none ↦ elim rsp [ some r ↦ write_response f r | none ↦ [] ]
      ])
        ≡ calls_of_members (elim req [
          | some r ↦ request_of r
          | none ↦ elim rsp [ some r ↦ response_of r | none ↦ closed ]
        ])
  kind_lem (some r) rsp = request_lem r
  kind_lem none (some r) = response_lem r
  kind_lem none none = unfold calls in refl

  payload_lem : (m : String) → write_payload f m ≡ calls_of_members (payload_of m)
  unfolding write_payload
  payload_lem m = kind_lem (f.as_request m) (f.as_response m)

  two_ends :
      (l : List Call)
      → l ++ end_object ∷ end_object ∷ [] ≡ ((l ++ end_object ∷ []) ++ []) ++ end_object ∷ []
  two_ends l = simp (append-nil, append_assoc)

  deliver_lem :
      (now : ℕ) (frame : Frame)
      → is_data frame ≡ true
      → deliver f now frame ≡ calls (packet_of now frame)
  unfolding deliver write_int calls
  deliver_lem now frame e =
      rw (e, deliver)
        (ap
          (λ l.
            start_object
            ∷ key "event_type"
            ∷ text "message"
            ∷ key "source_host"
            ∷ text frame.header.source_host
            ∷ key "dest_host"
            ∷ text frame.header.dest_host
            ∷ key "send_time"
            ∷ write_int frame.header.send_time
            ∷ key "receive_time"
            ∷ write_int now
            ∷ key "payload"
            ∷ start_object
            ∷ l)
          (ap (λ l. l ++ end_object ∷ end_object ∷ []) (payload_lem frame.packet.message)
            ∙ two_ends (calls_of_members (payload_of frame.packet.message))))

  first_element :
      (j : Json) (es : Elements)
      → calls j ++ calls_of_elements es ≡ calls_of_elements (element j es)
  unfolding calls
  first_element j es = refl

  deliver_all_lem :
      (frames : List (ℕ × Frame)) → deliver_all f frames ≡ calls_of_elements (packets_of frames)
  unfolding deliver_all
  deliver_all_lem [] = unfold calls in refl
  deliver_all_lem ((now, frame) ∷ frames) = elim (Bool-cases (is_data frame)) [
    | inl e ↦ rw e (
        ap (λ l. l ++ deliver_all f frames) (deliver_lem now frame e)
        ∙ ap (λ l. calls (packet_of now frame) ++ l) (deliver_all_lem frames)
        ∙ first_element (packet_of now frame) (packets_of frames))
    | inr e ↦ rw (e, deliver) (deliver_all_lem frames)
  ]

  -- What is written for the frames that are delivered is one JSON document, whatever their payloads are: the
  -- array that has, in their order, an object for each data packet, and none for the other packets.
  pub trace_lem : (frames : List (ℕ × Frame)) → trace f frames ≡ calls (array (packets_of frames))
  unfolding trace calls
  trace_lem frames = ap (λ l. start_array ∷ (l ++ end_array ∷ [])) (deliver_all_lem frames)
