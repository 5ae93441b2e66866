-- ===== src/FreeCad/Naming.antt =====
-- The names of `_internal_name` of freecad.py are identifiers of at most 96 characters.
use Prim.Native.Char.{code}
use cadrig.Base.{
  ℕ, zero, suc, ◌≤◌, String, ◌≡◌, refl, inl, inr, true, false, Bool-cases, arith, if◌then◌else◌,
}
use cadrig.Base.Text.{count}
use cadrig.FreeCad.Names.{
  is_word, is_word_text, is_document_id, substitute, shorten, needs_prefix, with_prefix,
  name_of_word, internal_name,
}

substitute-is_word_text : (s : String) → is_word_text (substitute s) ≡ true
substitute-is_word_text String.[] = refl
substitute-is_word_text (String.◌∷◌ c s) = elim (Bool-cases (is_word (code c))) [
  | inl e ↦ rw (e, if◌then◌else◌) (rw (e, substitute-is_word_text s) refl)
  | inr e ↦ rw (e, if◌then◌else◌) (substitute-is_word_text s)
]

shorten-is_word_text :
    (n : ℕ) (s : String) → is_word_text s ≡ true → is_word_text (shorten n s) ≡ true
shorten-is_word_text zero s h = refl
shorten-is_word_text (suc n) String.[] h = refl
shorten-is_word_text (suc n) (String.◌∷◌ c s) h = ground (arith, h, shorten-is_word_text n s)

count-shorten : (n : ℕ) (s : String) → count (shorten n s) ≤ n
count-shorten zero s = omega arith
count-shorten (suc n) String.[] = omega arith
count-shorten (suc n) (String.◌∷◌ c s) = omega (arith, count-shorten n s)

-- A text of word characters that starts with no digit is an identifier, shortened to some length.
initial_name :
    (n : ℕ) (s : String)
    → is_word_text s ≡ true
    → needs_prefix s ≡ false
    → is_document_id (shorten (suc n) s) ≡ true
initial_name n String.[] h p = absurd (cc)
initial_name n (String.◌∷◌ c s) h p = ground (arith, h, p, shorten-is_word_text n s)

name_of_word-is_document_id :
    (s : String) → is_word_text s ≡ true → is_document_id (name_of_word s) ≡ true
unfolding name_of_word
name_of_word-is_document_id s h = elim (Bool-cases (needs_prefix s)) [
  | inl e ↦ rw (e, if◌then◌else◌) (initial_name 95 (with_prefix s) h refl)
  | inr e ↦ rw (e, if◌then◌else◌) (initial_name 95 s h e)
]

-- The internal name of a feature is an identifier of at most 96 characters, whatever the feature's id.
pub internal_name_lem :
    (feature_id : String)
    → (is_document_id (internal_name feature_id) ≡ true) × (count (internal_name feature_id) ≤ 96)
unfolding internal_name name_of_word
internal_name_lem feature_id = (
  name_of_word-is_document_id (substitute feature_id) (substitute-is_word_text feature_id),
  count-shorten 96 _,
)
