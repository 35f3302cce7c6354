-- ===== src/Log.antt =====
-- matrix/log/event.cpp, format.cpp, env.cpp and backend.cpp: the lines of the log and the levels of its components. A text is the
-- list of its bytes. The libraries' splitting of texts, levels and numbers is a parameter.
pub mod Lines
use whirl_matrix.Base.{
  ℕ, ◌-◌, Bool, true, false, Option, none, some, List, [], ◌∷◌, ◌++◌, length, replicate, Outcome,
  ok, panic, ◌>>=◌, if◌then◌else◌,
}
use whirl_matrix.Runner.{limit_width}

pub record Libraries : Type 1 where
  pub Level : Type 0
  pub info : Level
  pub level_from_string : List ℕ → Outcome Level
  pub level_to_string : Level → List ℕ
  pub split : List ℕ → ℕ → List (List ℕ)
  pub number : ℕ → List ℕ
  pub text_eq : List ℕ → List ℕ → Bool

-- The fiber that runs: its id, and its name if it has one.
pub record Fiber : Type 0 where
  pub id : ℕ
  pub name : Option (List ℕ)

abbrev pub world_name : List ℕ
world_name = b'W' ∷ b'o' ∷ b'r' ∷ b'l' ∷ b'd' ∷ []

unfoldable pub this_fiber_name : (ℕ → List ℕ) → Fiber → List ℕ
this_fiber_name number fiber = elim fiber.name [ some name ↦ name | none ↦ b'T' ∷ number fiber.id ]

unfoldable pub this_actor_name : Option (List ℕ) → List ℕ
this_actor_name actor = elim actor [ some name ↦ name | none ↦ world_name ]

unfoldable pub describe_this_actor : (ℕ → List ℕ) → Option (List ℕ) → Option Fiber → List ℕ
unfolding this_fiber_name this_actor_name
describe_this_actor number actor fiber =
    this_actor_name actor
    ++ elim fiber [ none ↦ [] | some f ↦ b' ' ∷ b'/' ∷ this_fiber_name number f ]

module _ (c : Libraries) where
  open c use {Level, info, level_from_string, level_to_string, split, number, text_eq}

  pub record Event : Type 0 where
    pub time : ℕ
    pub step : ℕ
    pub level : Level
    pub actor : List ℕ
    pub component : List ℕ
    pub trace_id : Option (List ℕ)
    pub message : List ℕ

  -- std::map::emplace, which keeps the value of a key that is there.
  unfoldable pub emplace_level : List ℕ → Level → List (List ℕ × Level) → List (List ℕ × Level)
  emplace_level component level [] = (component, level) ∷ []
  emplace_level component level ((k, l) ∷ levels) =
      let rest = emplace_level component level levels in
      if text_eq k component then (k, l) ∷ levels else (k, l) ∷ rest

  unfoldable pub parse_component :
      List (List ℕ) → List (List ℕ × Level) → Outcome (List (List ℕ × Level))
  unfolding emplace_level
  parse_component (component ∷ level ∷ []) levels =
      level_from_string level >>= λ l. ok (emplace_level component l levels)
  parse_component parts levels = panic

  unfoldable pub parse_components :
      List (List ℕ) → List (List ℕ × Level) → Outcome (List (List ℕ × Level))
  unfolding parse_component
  parse_components [] levels = ok levels
  parse_components (part ∷ parts) levels =
      parse_component (split part b'=') levels >>= parse_components parts

  unfoldable pub parse_log_levels : List ℕ → Outcome (List (List ℕ × Level))
  unfolding parse_components
  parse_log_levels levels_str = parse_components (split levels_str b',') []

  unfoldable pub get_log_levels : Option (List ℕ) → Outcome (List (List ℕ × Level))
  unfolding parse_log_levels
  get_log_levels levels_env = elim levels_env [ none ↦ ok [] | some s ↦ parse_log_levels s ]

  unfoldable pub get_min_level_for : List ℕ → List (List ℕ × Level) → Level
  get_min_level_for component [] = info
  get_min_level_for component ((k, l) ∷ levels) =
      let rest = get_min_level_for component levels in if text_eq k component then l else rest

  -- std::setw with std::left.
  unfoldable pub field : ℕ → List ℕ → List ℕ
  unfolding limit_width
  field width s = let text = limit_width width s in text ++ replicate (width - length text) b' '

  unfoldable pub in_brackets : List ℕ → List ℕ
  in_brackets s = b'[' ∷ (s ++ b']' ∷ [])

  unfoldable pub columns : Event → List ℕ
  unfolding field in_brackets
  columns event =
      in_brackets (field 7 (level_to_string event.level))
      ++ b'\t'
        ∷ (in_brackets (field 15 event.actor) ++ b'\t' ∷ in_brackets (field 12 event.component))

  unfoldable pub format_log_event : Event → List ℕ
  unfolding columns in_brackets
  format_log_event event =
      in_brackets (b'T' ∷ b' ' ∷ (number event.time ++ b' ' ∷ b'|' ∷ b' ' ∷ number event.step))
      ++ b'\t'
        ∷ (columns event
            ++ ((elim event.trace_id [ none ↦ [] | some id ↦ b'\t' ∷ in_brackets id ])
                ++ b'\t' ∷ event.message))
