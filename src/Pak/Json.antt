-- ===== src/Pak/Json.antt =====
-- The JSON library that src/internal/PakIndex.cpp calls (nlohmann::json, a header of
-- libecs-cpp), as the operations that the code uses. Nothing is assumed of what they return.
use libthe_seed.Prelude.{ℕ, String, Bool, List, Option}
use libthe_seed.Bounded.Order.{Bytes}

-- parse_event_t
pub data ParseEvent : Type 0 where
  object_start object_end array_start array_end key value : ParseEvent

-- How `parse` ends: a value, or an exception with its text.
pub data ParseEnd (V : Type 0) : Type 0 where
  parsed : V → ParseEnd V
  parse_error : String → ParseEnd V

-- is_number_integer, is_number_unsigned and get<int64_t> < 0 tell these apart.
pub data JsonInteger : Type 0 where
  unsigned : ℕ → JsonInteger
  signed_non_negative : ℕ → JsonInteger
  signed_negative : ℕ → JsonInteger

pub record Json : Type 1 where
  pub Value : Type 0
  -- The events that the callback is called with (its depth and its kind), given what it
  -- answers, and the result.
  pub parse : (ℕ → ParseEvent → Bool) → Bytes → List (ℕ × ParseEvent) × ParseEnd Value
  pub is_object : Value → Bool
  pub find_key : Value → String → Option Value
  pub as_string : Value → Option Bytes
  pub as_array : Value → Option (List Value)
  pub as_integer : Value → Option JsonInteger
