-- ===== src/Transport/Ports.antt =====
-- Transport::FindFreePort: the search ends, with a port that is not in use.
use whirl_matrix.Base.{
  ℕ, zero, suc, ◌+◌, ◌-◌, ◌%◌, ◌^◌, ◌<◌, ◌≡◌, ◌∙◌, inl, inr, ap, refl, false, some, List, arith,
  Bool-cases,
}
use whirl_matrix.Transport.{Endpoint, Transport, in_use, scan_ports, find_free_port, next_of}

-- The search ends at a free port.
abbrev Found : ℕ → ℕ → List (ℕ × Endpoint) → Type 0
Found fuel port endpoints =
    (free : ℕ) × (next : ℕ) × (scan_ports fuel port endpoints ≡ some (free, next))
    × (in_use free endpoints ≡ false)
    × (free < 2 ^ 16)
    × (next ≡ next_of free)

scan-Found :
    (fuel k port : ℕ) (endpoints : List (ℕ × Endpoint))
    → k < fuel
    → port < 2 ^ 16
    → in_use ((port + k) % 2 ^ 16) endpoints ≡ false
    → Found fuel port endpoints
unfolding scan_ports
scan-Found zero k port endpoints h b u = absurd (omega arith)
scan-Found (suc fuel) zero port endpoints h b u =
    let here : in_use port endpoints ≡ false = ap (λ q. in_use q endpoints) (omega arith) ∙ u in
    (port, next_of port, rw (here, scan_ports) refl, here, b, refl)
scan-Found (suc fuel) (suc k) port endpoints h b u = elim (Bool-cases (in_use port endpoints)) [
  | inl e ↦
      let (free, next, eq, unused, small, step) =
        scan-Found fuel k (next_of port) endpoints (omega arith) (omega arith)
          (ap (λ q. in_use q endpoints) (omega arith) ∙ u) in
      (free, next, rw (e, scan_ports) eq, unused, small, step)
  | inr e ↦ (port, next_of port, rw (e, scan_ports) refl, e, b, refl)
]

of_scan :
    (t : Transport) (free next : ℕ)
    → scan_ports (2 ^ 16) t.next_port t.endpoints ≡ some (free, next)
    → find_free_port t ≡ some (free, record t { next_port = next })
unfolding find_free_port
of_scan t free next eq = rw (eq, find_free_port) refl

-- Where one of the ports is free, the search ends with a free port, and the next search begins
-- behind it, again at a port.
pub find_free_port_lem :
    (t : Transport) (p : ℕ)
    → t.next_port < 2 ^ 16
    → p < 2 ^ 16
    → in_use p t.endpoints ≡ false
    → (free : ℕ) × (find_free_port t ≡ some (free, record t { next_port = next_of free }))
      × (in_use free t.endpoints ≡ false)
      × (free < 2 ^ 16)
      × (next_of free < 2 ^ 16)
find_free_port_lem t p h b u =
    let (free, next, eq, unused, small, step) =
      scan-Found (2 ^ 16) ((p + 2 ^ 16 - t.next_port) % 2 ^ 16) t.next_port t.endpoints
        (omega arith) h (ap (λ q. in_use q t.endpoints) (omega arith) ∙ u) in
    (
      free,
      of_scan t free (next_of free) (eq ∙ ap (λ n. some (free, n)) step),
      unused,
      small,
      omega arith,
    )
