-- ===== src/Examples/Chain.antt =====
-- A log of two entries, and what happens to it.
use sidestage_copilot.Prelude.{
  ℕ, String, str_eq, str_iff, false, ◌↔◌, some, [], ◌∷◌, ◌≡◌, ◌≢◌, refl, arith,
}
use sidestage_copilot.Actions.Audit.{Platform, Row, intact, genesis, hash_entry, append, verify}
use sidestage_copilot.Actions.Audit.Laws.{IsChain, verify_iff, verify-append}

-- A hash that keeps its text, and a format in which two texts say the same.
abbrev plain : Platform
plain = record {
  Detail = ℕ;
  stringify = λ n. "0";
  parse = λ s. some 0;
  sha256 = λ s. s;
  digits = λ n. "9";
}

abbrev entry : ℕ → String → Row
entry n prev = record {
  seq = n;
  at = "noon";
  hash = hash_entry plain prev n "noon" "reply_sent" "seller" "hi" 0;
  prev_hash = prev;
  kind = "reply_sent";
  actor_type = "seller";
  summary = "hi";
  detail = "0";
}

abbrev first : Row
first = entry 1 genesis

abbrev second : Row
second = entry 2 first.hash

both_intact : verify plain (first ∷ second ∷ []) ≡ intact 2
unfolding verify hash_entry
both_intact = refl

first_intact : verify plain (first ∷ []) ≡ intact 1
unfolding verify hash_entry
first_intact = refl

differ : (a b : String) → str_eq a b ≡ false → a ≢ b
differ a b h = ground (arith, str_iff a b)

not_genesis : first.hash ≢ genesis
unfolding hash_entry
not_genesis = differ first.hash genesis refl

verify-append_example :
    verify plain (append plain "noon" "reply_sent" "seller" "hi" 0 (first ∷ [])) ≡ intact 2
verify-append_example =
    verify-append plain "noon" "reply_sent" "seller" "hi" 0 (first ∷ []) (λ d. (0, refl, refl))
      first_intact

-- The summary of the first entry is rewritten and its hash is left.
abbrev edited : Row
edited = record first { summary = "bye" }

edited_differs : hash_entry plain genesis 1 "noon" "reply_sent" "seller" "bye" 0 ≢ first.hash
unfolding hash_entry
edited_differs =
    differ (hash_entry plain genesis 1 "noon" "reply_sent" "seller" "bye" 0) first.hash refl

empty_intact : verify plain [] ≡ intact 0
unfolding verify
empty_intact = refl

verify_iff_example :
    (verify plain (first ∷ second ∷ []) ≡ intact 2) ↔ IsChain plain genesis (first ∷ second ∷ [])
verify_iff_example = verify_iff plain (first ∷ second ∷ [])
