-- ===== src/TimeModel.antt =====
-- matrix/world/random_source.hpp, matrix/world/global/random.hpp and service.cpp, matrix/time_model
-- and matrix/server/runtime/random.hpp: the random source of the world, and what the time models draw from
-- it. The Mersenne twister is the parameter `Generator`. As in Clocks, a drift is given by its rate,
-- `100 + drift_`.

pub mod Bounds
pub mod Selection
use whirl_matrix.Base.{
  ℕ, zero, suc, ◌+◌, ◌-◌, ◌%◌, Bool, true, false, Option, none, some, List, [], ◌∷◌, ◌++◌, ltb, leb,
  ◌==◌, Outcome, ok, panic, ◌>>=◌, ◌>>◌, verify, length, get_elem?, set,
}
use whirl_matrix.Semantics.Checker.{swap}
use whirl_matrix.Network.{PacketType, data_packet, reset_packet, ping_packet}

pub record Generator (R : Type 0) : Type 0 where
  pub seed : ℕ → R
  pub generate : R → ℕ × R

pub record RandomSource (R : Type 0) : Type 0 where
  pub impl : R
  pub steps : ℕ

abbrev pub Draw : Type 0 → Type 0 → Type 0
Draw R A = RandomSource R → Outcome (A × RandomSource R)

module _ {R : Type 0} (g : Generator R) where
  unfoldable pub reset : ℕ → RandomSource R
  reset seed = record { impl = g.seed seed; steps = 0 }

  unfoldable pub next : RandomSource R → ℕ × RandomSource R
  next source =
      let (n, impl) = g.generate source.impl in
      (n, record { impl = impl; steps = source.steps + 1 })

  -- GlobalRandomNumber(bound) and GlobalRandomNumber(lo, hi)
  unfoldable pub number_below : ℕ → Draw R ℕ
  unfolding next
  number_below bound source =
      verify (ltb 0 bound) >> (let (n, source') = next source in ok (n % bound, source'))

  unfoldable pub number_between : ℕ → ℕ → Draw R ℕ
  unfolding number_below
  number_between lo hi source =
      verify (leb lo hi) >> number_below (hi - lo) source >>= λ r. ok (lo + r.0, r.1)

  -- Whether GlobalRandomNumber() is a multiple of the number, and then one or the other.
  unfoldable pub one_of : {A : Type 0} → ℕ → Draw R A → Draw R A → Draw R A
  unfolding next
  one_of count then_draw else_draw source =
      let (n, source') = next source in
      elim (n % count == 0) [ true ↦ then_draw source' | false ↦ else_draw source' ]

  -- The loop of GlobalRandomSelect: the items chosen so far are the first `i`.
  unfoldable pub select_from : {A : Type 0} → ℕ → ℕ → List A → Draw R (List A)
  unfolding number_between swap
  select_from zero i items source = ok ([], source)
  select_from (suc k) i items source = number_between i (length items) source >>= λ r.
      elim (get_elem? (swap i r.0 items) i) [
        | none ↦ panic
        | some a ↦ select_from k (suc i) (swap i r.0 items) r.1 >>= λ s. ok (a ∷ s.0, s.1)
      ]

  unfoldable pub global_random_select : {A : Type 0} → List A → ℕ → Draw R (List A)
  unfolding select_from
  global_random_select items k source =
      verify (leb k (length items)) >> select_from k 0 items source

  -- CrazyServerTimeModel
  unfoldable pub init_clock_drift : Draw R ℕ
  unfolding number_below one_of
  init_clock_drift =
      one_of 3 (λ s. number_below 100 s >>= λ r. ok (100 + 200 + r.0, r.1))
        (one_of 2 (λ s. number_below 25 s >>= λ r. ok (100 + 75 + r.0, r.1))
          (λ s. number_below (25 + 1) s >>= λ r. ok (100 - 75 + r.0, r.1)))

  unfoldable pub reset_monotonic_clock : Draw R ℕ
  unfolding number_between
  reset_monotonic_clock = number_between 1 100

  unfoldable pub init_wall_clock_offset : Draw R ℕ
  unfolding number_below
  init_wall_clock_offset = number_below 1000

  unfoldable pub true_time_uncertainty : Draw R ℕ
  unfolding number_between one_of
  true_time_uncertainty = one_of 7 (number_between 300 1000) (number_between 5 50)

  unfoldable pub disk_write : Draw R ℕ
  unfolding number_between
  disk_write = number_between 10 250

  unfoldable pub disk_read : Draw R ℕ
  unfolding number_between
  disk_read = number_between 10 50

  unfoldable pub get_cache_miss : Draw R Bool
  unfolding number_below
  get_cache_miss s = number_below 11 s >>= λ r. ok (r.0 == 0, r.1)

  unfoldable pub iterator_cache_miss : Draw R Bool
  unfolding number_below
  iterator_cache_miss s = number_below 17 s >>= λ r. ok (r.0 == 0, r.1)

  unfoldable pub thread_pause : Draw R ℕ
  unfolding number_between
  thread_pause = number_between 5 50

  -- CrazyTimeModel
  unfoldable pub global_start_time : Draw R ℕ
  unfolding number_between
  global_start_time = number_between 1 200

  unfoldable pub is_data : PacketType → Bool
  is_data data_packet = true
  is_data _ = false

  unfoldable pub flight_time : PacketType → Draw R ℕ
  unfolding number_between one_of is_data
  flight_time type source = elim (is_data type) [
    | false ↦ ok (50, source)
    | true ↦
        one_of 11 (number_between 400 1000)
          (one_of 7 (number_between 5 10)
            (one_of 5 (number_between 10 1000) (number_between 30 60)))
          source
  ]

abbrev pub estimate_rtt : ℕ
estimate_rtt = 500

-- AdversaryTimeModel: the drift, the start of the monotonic clock, the offset of the wall clock; the durations
-- are 1 and there are no cache misses.
pub record ServerTimes : Type 0 where
  pub rate : ℕ
  pub monotonic_start : ℕ
  pub wall_offset : ℕ
  pub uncertainty : ℕ
  pub write_time : ℕ
  pub read_time : ℕ
  pub cache_miss : Bool
  pub pause : ℕ

abbrev pub adversary_times : ServerTimes
adversary_times = record {
  rate = 100;
  monotonic_start = 0;
  wall_offset = 0;
  uncertainty = 1;
  write_time = 1;
  read_time = 1;
  cache_miss = false;
  pause = 1;
}
