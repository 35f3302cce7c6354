-- ===== src/Tests/Nets.antt =====
-- A network with one host and one frame on its way.
use whirl_matrix.Base.{
  count_where, zero, suc, ℕ, ◌+◌, ◌^◌, ◌<◌, ◌≡◌, refl, true, false, Option, some, [], ◌∷◌, arith,
  get_elem?, length, ok, panic, ◌>>=◌,
}
use mathlib.Core.Path.{subst}
use whirl_matrix.Digest.{Hashes}
use whirl_matrix.Network.{Frame, Link, Network, data_packet}
use whirl_matrix.Network.Links.{add_frame, resume}
use whirl_matrix.Network.Faults.{heal}
use whirl_matrix.Network.Healed.{IsHealed, heal-IsHealed}
use whirl_matrix.Network.Steps.{Delivery, step, is_runnable}
use whirl_matrix.Network.Coherent.{IsCoherent, at_time, of_link}
use whirl_matrix.Network.Agree.{step-IsCoherent}
use whirl_matrix.Network.Sends.{add_frame-IsCoherent}
use whirl_matrix.Transport.{Transport, in_use, find_free_port, next_of}
use whirl_matrix.Transport.Ports.{find_free_port_lem}

abbrev pub hashes : Hashes
hashes = record {
  hash_combine = λ d h. d + h;
  hash_number = λ n. n;
  hash_string = λ s. 1;
  hash_range = λ n l. n;
}

abbrev a_frame : Frame
a_frame = record {
  header = record { source_host = "Server-1"; dest_host = "Server-1"; send_time = 0 };
  packet = record {
    header = record { type = data_packet; source_port = 1; dest_port = 42; ts = 1 };
    message = "hello";
  };
}

abbrev loop_link : Link
loop_link = record {
  start = 0;
  end = 0;
  frames = record {
    items = record { item = record { frame = a_frame; time = 5 }; tie_braker = 1 } ∷ [];
    inserts = 1;
  };
  paused = false;
  opposite = some 0;
}

abbrev pub one_frame : Network
one_frame = record {
  servers = "Server-1" ∷ [];
  links = loop_link ∷ [];
  events = record {
    items = record { item = record { time = 5; link = 0 }; tie_braker = 1 } ∷ [];
    inserts = 1;
  };
  frames_log = a_frame ∷ [];
  digest = 0;
}

link_inj : {x y : Link} → some x ≡ some y → x ≡ y
link_inj h = cc

one_frame-matched :
    (i : ℕ) (l : Link)
    → get_elem? one_frame.links i ≡ some l
    → l.paused ≡ false
    → (t : ℕ)
    → count_where (at_time t) l.frames.items ≡ count_where (of_link i t) one_frame.events.items
one_frame-matched zero l h live t =
    subst
      (λ (m : Link).
        count_where (at_time t) m.frames.items ≡ count_where (of_link 0 t) one_frame.events.items)
      (link_inj h) refl
one_frame-matched (suc i) l h live t = cc

one_frame-IsCoherent : IsCoherent one_frame
one_frame-IsCoherent = record { known = (omega arith, tt); matched = one_frame-matched }

step-IsCoherent_example :
    (d : Option Delivery) × (net' : Network) × (step hashes one_frame ≡ ok (d, net'))
    × IsCoherent net'
unfolding is_runnable
step-IsCoherent_example = step-IsCoherent hashes one_frame one_frame-IsCoherent refl

add_frame-IsCoherent_example :
    (net' : Network) × (add_frame 0 a_frame 7 one_frame ≡ ok net') × IsCoherent net'
add_frame-IsCoherent_example =
    add_frame-IsCoherent 0 a_frame 7 one_frame one_frame-IsCoherent (omega arith)

-- The search begins at the last port, which is in use.
abbrev at_the_end : Transport
at_the_end = record {
  host = "Server-1";
  endpoints = (65535, record { handler = 0; ts = 1 }) ∷ [];
  next_port = 65535;
  scheduler = record { items = []; inserts = 0 };
}

find_free_port_lem_example :
    (free : ℕ) × (find_free_port at_the_end
      ≡ some (free, record at_the_end { next_port = next_of free }))
    × (in_use free at_the_end.endpoints ≡ false)
    × (free < 2 ^ 16)
    × (next_of free < 2 ^ 16)
unfolding in_use
find_free_port_lem_example = find_free_port_lem at_the_end 0 (omega arith) (omega arith) refl

-- The frame for time 5 was on its way when the link was paused, and its event is gone.
abbrev held : Network
held = record one_frame {
  links = record loop_link { paused = true } ∷ [];
  events = record { items = []; inserts = 1 };
}

-- A link resumed at the very time of a frame that it held back does not send it again, and the event
-- of the next frame then meets the old one: the step fails.
resume-step_fails : (resume 0 5 held >>= add_frame 0 a_frame 7 >>= step hashes) ≡ panic
unfolding resume add_frame step
resume-step_fails = refl

heal-IsHealed_example :
    (net' : Network) × (heal 9 held ≡ ok net')
    × (length net'.links ≡ length held.links)
    × ((j : ℕ) (l : Link)
        → get_elem? held.links j ≡ some l
        → (l' : Link) × (get_elem? net'.links j ≡ some l') × IsHealed 9 l l' × (l'.paused ≡ false))
heal-IsHealed_example = heal-IsHealed 9 held (omega arith)
