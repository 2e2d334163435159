-- ===== src/Order/Json.antt =====
-- What the program uses of nlohmann::json and of `std::stod`, which are not modelled. `none` is a thrown
-- exception. Numbers of an `std::int64_t` are modelled from 0 on.
use sentum.Prelude.{ℕ, String, Option, List}

pub record Json (J W : Type 0) : Type 0 where
  -- `value(key, fallback)` on a text and on an integer.
  pub value_text : J → String → String → Option String
  pub value_int : J → String → ℕ → Option ℕ
  -- `contains(key)` with `at(key)`: `none` where the key is missing.
  pub field : J → String → Option J
  -- `is_string() ? std::stod(get<std::string>()) : get<double>()`.
  pub number : J → Option W
  -- `is_array()` with the elements.
  pub elements : J → Option (List J)
  -- `std::stod`.
  pub stod : String → Option W
