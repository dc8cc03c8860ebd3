-- ===== src/Ingest/Classify.antt =====
-- src/ingest/classify.ts: the topic, the speech act and the stance of a line of chat, and the gate.
-- A regular expression, and a split into words by one, is a parameter of the model.
pub mod Laws
use sidestage_copilot.Prelude.{
  ℕ, String, str_eq, has, Bool, true, false, not, ◌&&◌, ◌||◌, Option, none, some, List, [], ◌∷◌,
  if◌then◌else◌, ltb, every, keep, length,
}
use sidestage_copilot.Domain.{
  ChatIntent, price_question, availability, sizing, shipping, returns, authenticity, comparison,
  discount_request, hype, other, ActionKind, flag_for_human,
}

pub data SpeechAct : Type 0 where
  query command inform greeting wish other_act : SpeechAct

pub data Stance : Type 0 where
  asking complaining baiting neutral : Stance

-- The expressions and the language's own operations on text.
pub record Lexicon : Type 0 where
  pub trim : String → String
  pub size : String → ℕ
  -- `CUES` and `SPEECH_ACTS`
  pub cue : ChatIntent → String → Bool
  pub act : SpeechAct → String → Bool
  -- `text.toLowerCase().replace(…).trim().split(/\s+/).filter(Boolean)`
  pub words : String → List String
  pub attribute_words : String → List String
  pub is_laugh : String → Bool
  pub is_number : String → Bool
  pub is_size : String → Bool
  -- `t.includes("?")` and `INTERROGATIVE`
  pub has_question_mark : String → Bool
  pub opens_as_question : String → Bool
  -- one of `BAIT_ALWAYS`, of `BAIT_ASSERTED`, of `COMPLAINT`
  pub bait_always : String → Bool
  pub bait_asserted : String → Bool
  pub complaint : String → Bool

abbrev pub is_empty_text : String → Bool
is_empty_text s = str_eq s ""

abbrev hype_tokens : List String
hype_tokens =
    "w" ∷ "l" ∷ "lol" ∷ "lmao" ∷ "lul" ∷ "lulw" ∷ "kekw" ∷ "pog" ∷ "pogchamp" ∷ "gg" ∷ "ez" ∷ "omg"
    ∷ "omfg" ∷ "hi" ∷ "hey" ∷ "yo" ∷ "sheesh" ∷ "based" ∷ "fire" ∷ "clean" ∷ "heat" ∷ "grail"
    ∷ "grails" ∷ "letsgo" ∷ "letsgoo" ∷ "letsgooo" ∷ "lets" ∷ "go" ∷ "goo" ∷ "gooo" ∷ "bro" ∷ "fr"
    ∷ "facts" ∷ "yes" ∷ "yep" ∷ "no" ∷ "nah" ∷ "ok" ∷ "okay" ∷ "wow" ∷ "damn" ∷ "nice" ∷ "cool"
    ∷ "sick" ∷ "dope" ∷ "yessir" ∷ "banger" ∷ "peak" ∷ "mid" ∷ "gm" ∷ "gn" ∷ []

-- Of no words, every word is a reaction.
unfoldable pub is_hype : Lexicon → String → Bool
is_hype lx text = every (λ w. has hype_tokens w || lx.is_laugh w || lx.is_number w) (lx.words text)

abbrev colours : List String
colours =
    "orange" ∷ "red" ∷ "blue" ∷ "green" ∷ "black" ∷ "white" ∷ "pink" ∷ "purple" ∷ "yellow" ∷ "gold"
    ∷ "silver" ∷ "brown" ∷ "grey" ∷ "gray" ∷ "teal" ∷ "navy" ∷ "beige" ∷ "cream" ∷ "tan" ∷ "clear"
    ∷ "rainbow" ∷ "multicolor" ∷ []

abbrev sizes : List String
sizes =
    "small" ∷ "medium" ∷ "large" ∷ "xs" ∷ "s" ∷ "m" ∷ "l" ∷ "xl" ∷ "xxl" ∷ "xxxl" ∷ "big" ∷ "bigger"
    ∷ "biggest" ∷ "smaller" ∷ "smallest" ∷ "larger" ∷ "largest" ∷ "tiny" ∷ "huge" ∷ "mini" ∷ "size"
    ∷ "sz" ∷ "mens" ∷ "womens" ∷ "kids" ∷ "youth" ∷ "raw" ∷ "polished" ∷ "tumbled" ∷ "rough"
    ∷ "matte" ∷ "glossy" ∷ []

abbrev fillers : List String
fillers =
    "the" ∷ "a" ∷ "an" ∷ "one" ∷ "in" ∷ "any" ∷ "that" ∷ "this" ∷ "ones" ∷ "pls" ∷ "please" ∷ []

abbrev is_some_word : List String → Bool
is_some_word [] = false
is_some_word (x ∷ xs) = true

unfoldable pub is_bare_attribute : Lexicon → String → Bool
is_bare_attribute lx text =
    let words = lx.attribute_words text in
    let core = keep (λ w. not (has fillers w)) words in
    is_some_word words
    && not (ltb 4 (length words))
    && is_some_word core
    && every (λ w. has colours w || has sizes w || lx.is_size w) core

abbrev cue_order : List ChatIntent
cue_order =
    discount_request ∷ price_question ∷ availability ∷ sizing ∷ shipping ∷ returns ∷ authenticity
    ∷ comparison ∷ []

abbrev first_cue : Lexicon → String → List ChatIntent → Option ChatIntent
first_cue lx t [] = none
first_cue lx t (i ∷ is) = let rest = first_cue lx t is in if lx.cue i t then some i else rest

-- Without a cue, a bare attribute asks for stock; a question is `other`, and the rest is a reaction.
abbrev by_shape : Lexicon → String → Option ChatIntent → ChatIntent
by_shape lx t (some i) = i
by_shape lx t none =
    if is_bare_attribute lx t
    then availability
    else (if lx.has_question_mark t || lx.opens_as_question t then other else hype)

unfoldable pub classify : Lexicon → String → ChatIntent
classify lx text =
    let t = lx.trim text in
    if is_empty_text t
    then other
    else (if is_hype lx t then hype else by_shape lx t (first_cue lx t cue_order))

unfoldable pub classify_stance : Lexicon → String → Stance
classify_stance lx text =
    let t = lx.trim text in
    let asks = lx.has_question_mark t || lx.opens_as_question t in
    if is_empty_text t
    then neutral
    else if lx.bait_always t
    then baiting
    else if not asks && lx.bait_asserted t
    then baiting
    else (if lx.complaint t then complaining else (if asks then asking else neutral))

unfoldable pub classify_speech_act : Lexicon → String → SpeechAct
classify_speech_act lx text =
    let t = lx.trim text in
    if is_empty_text t
    then other_act
    else if lx.act command t
    then command
    else if lx.act query t
    then query
    else (if lx.act greeting t then greeting else (if lx.act wish t then wish else inform))

abbrev pub handoff_for : Stance → Option ActionKind
handoff_for baiting = some flag_for_human
handoff_for _ = none

pub data DropReason : Type 0 where
  bait only_greeting only_wish reaction too_short too_long statement rate_cap : DropReason

pub record AdmissionResult : Type 0 where
  pub admitted : Bool
  pub handoff : Option ActionKind
  pub reason : Option DropReason

abbrev admitted_result : AdmissionResult
admitted_result = record { admitted = true; handoff = none; reason = none }

abbrev dropped : DropReason → AdmissionResult
dropped r = record { admitted = false; handoff = none; reason = some r }

-- The reason to drop a line that is found before the rate is asked, if there is one.
abbrev is_command : SpeechAct → Bool
is_command command = true
is_command _ = false

abbrev by_act : ChatIntent → SpeechAct → Option DropReason
by_act intent command = none
by_act intent greeting = some only_greeting
by_act intent wish = some only_wish
by_act hype act = some reaction
by_act intent act = none

abbrev by_length : Lexicon → String → Option DropReason
by_length lx t =
    if ltb (lx.size t) 3
    then some too_short
    else (if ltb 500 (lx.size t) then some too_long else none)

abbrev by_question : SpeechAct → Option DropReason
by_question command = none
by_question query = none
by_question _ = some statement

abbrev or_else : Option DropReason → Option DropReason → Option DropReason
or_else none o = o
or_else (some r) o = some r

module _ {S : Type 0} where
  abbrev rated : Bool × S → AdmissionResult × S
  rated (true, s) = (admitted_result, s)
  rated (false, s) = (dropped rate_cap, s)

  abbrev rate_last : Option DropReason → (S → Bool × S) → S → AdmissionResult × S
  rate_last none rate s = rated (rate s)
  rate_last (some r) rate s = (dropped r, s)

  abbrev not_bait :
      Lexicon → String → ChatIntent → (S → Bool × S) → SpeechAct → S → AdmissionResult × S
  not_bait lx t intent rate act s =
      rate_last (or_else (by_act intent act) (or_else (by_length lx t) (by_question act))) rate s

  -- The rate is a thunk over the state of the limiter, and is called last.
  unfoldable pub admit :
      Lexicon → String → ChatIntent → (S → Bool × S) → SpeechAct → Stance → S → AdmissionResult × S
  admit lx text intent rate act baiting s =
      (record { admitted = false; handoff = handoff_for baiting; reason = some bait }, s)
  admit lx text intent rate act stance s = not_bait lx (lx.trim text) intent rate act s
