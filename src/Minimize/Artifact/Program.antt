-- ===== src/Minimize/Artifact/Program.antt =====
-- What `program` accepts.
use mathlib.Core.Path.{subst}
use text.Mathlib.TextPositions.{eq_refl}
use ckb_vm_sail_verify.Base.{
  ℕ, suc, ◌^◌, ◌<◌, ◌≤◌, ◌≡◌, refl, ap, ◌∙◌, ◌↔◌, true, ◌&&◌, Option, none, some, List, [], ◌∷◌,
  length, map, All, ltb, leb, pos, arith, Bool-cases, inl, inr,
}
use ckb_vm_sail_verify.Base.Result.{ok, ◌>>=◌}
use ckb_vm_sail_verify.Base.Result.Returns.{Returns, Returns-ok, Returns-bind, Returns-require}
use ckb_vm_sail_verify.Base.Json.{Value, Items, nil, cons, int, list, item, elements, items, equal}
use ckb_vm_sail_verify.Minimize.Artifact.{
  word_of, words_of, add_word, or_invalid, instruction_words, hex_words, reset_state, program,
}

-- The JSON array of the words.
abbrev pub word_values : List ℕ → Value
word_values ws = list (items (map (λ w. int (pos w)) ws))

-- A sequence that the replay takes.
pub record IsSequence (ws : List ℕ) : Type 0 where
  pub nonempty : 0 < length ws
  pub short : length ws ≤ 256
  pub in_range : All (λ w. w < 2 ^ 32) ws

word_of-some : (v : Value) (w : ℕ) → word_of v ≡ some w → (v ≡ int (pos w)) × (w < 2 ^ 32)
unfolding word_of
word_of-some (int (pos n)) w h = ground arith
word_of-some v w h = cc

add_word-some :
    (a : Option ℕ) (b : Option (List ℕ)) (ws : List ℕ)
    → add_word a b ≡ some ws
    → (w : ℕ) × (rest : List ℕ) × (a ≡ some w) × (b ≡ some rest) × (w ∷ rest ≡ ws)
add_word-some (some w) (some rest) ws h = (w, rest, refl, refl, cc)
add_word-some (some w) none ws h = cc
add_word-some none b ws h = cc

words_of-some :
    (xs : Items) (ws : List ℕ)
    → words_of (elements xs) ≡ some ws
    → (xs ≡ items (map (λ w. int (pos w)) ws))
      × All (λ w. w < 2 ^ 32) ws
      × (length ws ≡ length (elements xs))
unfolding words_of
words_of-some nil [] h = (refl, tt, refl)
words_of-some nil (w ∷ ws) h = cc
words_of-some (cons v xs) ws h =
    let (w, rest, ev, er, same) = add_word-some _ _ ws h in
    let (is_word, small) = word_of-some v w ev in
    let (rest_same, rest_small, rest_length) = words_of-some xs rest er in
    subst
      (λ ws.
        (cons v xs ≡ items (map (λ w. int (pos w)) ws))
        × All (λ w. w < 2 ^ 32) ws
        × (length ws ≡ length (elements (cons v xs))))
      same (cc (is_word, rest_same), (small, rest_small), ap suc rest_length)

or_invalid-ok : (o : Option (List ℕ)) (ws : List ℕ) → or_invalid o ≡ ok ws → o ≡ some ws
or_invalid-ok none ws h = cc
or_invalid-ok (some vs) ws h = cc

-- The instructions are a JSON array of the words, all of 32 bits, and there are 1 to 256 of them.
pub instruction_words-IsSequence :
    (v : Value) (ws : List ℕ) → instruction_words v ≡ ok ws → (v ≡ word_values ws) × IsSequence ws
unfolding instruction_words
instruction_words-IsSequence (list xs) ws h =
    elim (Bool-cases (ltb 0 (length (elements xs)) && leb (length (elements xs)) 256)) [
      | inl within ↦
          let (same, small, size) = words_of-some xs ws (or_invalid-ok _ ws (rw within at h)) in
          (ap list same, record { nonempty = ground arith; short = ground arith; in_range = small })
      | inr outside ↦ cc (rw outside at h)
    ]
instruction_words-IsSequence v ws h = cc

elements-words :
    (ws : List ℕ) → elements (items (map (λ w. int (pos w)) ws)) ≡ map (λ w. int (pos w)) ws
elements-words [] = refl
elements-words (w ∷ ws) = ap (λ l. int (pos w) ∷ l) (elements-words ws)

length-words : (ws : List ℕ) → length (map {B = Value} (λ w. int (pos w)) ws) ≡ length ws
length-words [] = refl
length-words (w ∷ ws) = ap suc (length-words ws)

words_of-values :
    (ws : List ℕ) → All (λ w. w < 2 ^ 32) ws → words_of (map (λ w. int (pos w)) ws) ≡ some ws
unfolding words_of word_of
words_of-values [] h = refl
words_of-values (w ∷ ws) (small, rest) = rw (words_of-values ws rest) (ground arith)

pub instruction_words-values :
    (ws : List ℕ) → IsSequence ws → instruction_words (word_values ws) ≡ ok ws
unfolding instruction_words
instruction_words-values ws s =
    rw (elements-words ws, length-words ws, words_of-values ws s.in_range) (ground arith)

-- The hex texts equal themselves.
pub equal-hex_words : (ws : List ℕ) → equal (hex_words ws) (hex_words ws) ≡ true
unfolding equal
equal-hex_words [] = refl
equal-hex_words (w ∷ ws) = rw (eq_refl, equal-hex_words ws)

-- An artifact of schema 3 whose instructions are an array of 1 to 256 words of 32 bits, whose hex
-- texts are those of the words, and whose initial state is the reset state.
pub record IsReplayable (artifact : Value) (ws : List ℕ) : Type 0 where
  pub version : Value
  pub has_version : item artifact "schema_version" ≡ ok version
  pub is_schema3 : equal version (int (pos 3)) ≡ true
  pub case : Value
  pub has_case : item artifact "case" ≡ ok case
  pub has_words : item case "instructions" ≡ ok (word_values ws)
  pub is_sequence : IsSequence ws
  pub hex : Value
  pub has_hex : item artifact "instructions_hex" ≡ ok hex
  pub is_hex : equal hex (hex_words ws) ≡ true
  pub initial : Value
  pub has_initial : item artifact "initial_state" ≡ ok initial
  pub is_reset : equal initial reset_state ≡ true

program-IsReplayable : (artifact : Value) → Returns (IsReplayable artifact) (program artifact)
unfolding program
program-IsReplayable artifact = Returns-bind λ version e1. Returns-require _ λ h1.
    Returns-bind λ case e2. Returns-bind λ instructions e3. Returns-bind λ words e4.
      Returns-bind λ hex e5. Returns-require _ λ h5. Returns-bind λ initial e6.
        Returns-require _ λ h6.
          let (shape, sequence) = instruction_words-IsSequence instructions words e4 in
          Returns-ok words (record {
            version = version;
            has_version = e1;
            is_schema3 = h1;
            case = case;
            has_case = e2;
            has_words = e3 ∙ ap ok shape;
            is_sequence = sequence;
            hex = hex;
            has_hex = e5;
            is_hex = h5;
            initial = initial;
            has_initial = e6;
            is_reset = h6;
          })

program-of-IsReplayable :
    (artifact : Value) (ws : List ℕ) → IsReplayable artifact ws → program artifact ≡ ok ws
unfolding program ◌>>=◌
program-of-IsReplayable artifact ws r = rw (
  r.has_version,
  r.is_schema3,
  r.has_case,
  r.has_words,
  instruction_words-values ws r.is_sequence,
  r.has_hex,
  r.is_hex,
  r.has_initial,
  r.is_reset,
)

-- `program` accepts an artifact with exactly the words for which the artifact is replayable.
pub program_iff :
    (artifact : Value) (ws : List ℕ) → (program artifact ≡ ok ws) ↔ IsReplayable artifact ws
program_iff artifact ws =
    ((program-IsReplayable artifact).at ws, program-of-IsReplayable artifact ws)
