-- ===== src/Opt/Texts.antt =====
-- opt.c: the texts of options: words, names with `|` between them, and what the C library reads.
-- A text is the list of its bytes, without the zero at its end.
use bklib.Base.{
  ℕ, zero, suc, ◌-◌, Bool, true, false, ◌&&◌, ◌||◌, not, Option, none, some, List, [], ◌∷◌, leb,
  ◌==◌, if◌then◌else◌, length,
}

-- `strcmp` and `strncmp` of two texts, as a test for 0.
unfoldable pub same_text : List ℕ → List ℕ → Bool
same_text [] [] = true
same_text [] (y ∷ t) = false
same_text (x ∷ s) [] = false
same_text (x ∷ s) (y ∷ t) = x == y && same_text s t

-- `OPT_WORD_MAX`
abbrev pub word_max : ℕ
word_max = 127

abbrev pub is_word_char : ℕ → Bool
is_word_char x =
    (leb b'0' x && leb x b'9')
    || ((leb b'a' x && leb x b'z')
        || ((leb b'A' x && leb x b'Z')
            || (x == b'@'
                || (x == b'-' || (x == b'_' || (x == b'.' || (x == b',' || x == b';')))))))

pub verify_loop : ℕ → List ℕ → Bool
verify_loop i [] = true
verify_loop i (x ∷ s) =
    let more = verify_loop (i - 1) s in if i == 0 || not (is_word_char x) then false else more

unfoldable pub verify_word : List ℕ → Bool
unfolding verify_loop
verify_word buf = verify_loop word_max buf

-- `strstr`: the text from the first place on where `needle` stands.
pub starts_with : List ℕ → List ℕ → Bool
starts_with [] s = true
starts_with (x ∷ needle) [] = false
starts_with (x ∷ needle) (y ∷ s) = x == y && starts_with needle s

unfoldable pub strstr : List ℕ → List ℕ → Option (List ℕ)
unfolding starts_with
strstr [] needle = if starts_with needle [] then some [] else none
strstr (x ∷ s) needle =
    let more = strstr s needle in if starts_with needle (x ∷ s) then some (x ∷ s) else more

-- "default:"
abbrev pub default_mark : List ℕ
default_mark = b'd' ∷ b'e' ∷ b'f' ∷ b'a' ∷ b'u' ∷ b'l' ∷ b't' ∷ b':' ∷ []

abbrev pub strspn_dash : List ℕ → List ℕ
strspn_dash [] = []
strspn_dash (x ∷ s) = if x == b'-' then strspn_dash s else x ∷ s

abbrev pub ends_name : ℕ → Bool
ends_name x = x == b'|' || (x == b' ' || (x == b'\t' || (x == b'\r' || x == b'\n')))

-- A name, to the next `|` or white space, and the text behind it.
pub span_name : List ℕ → List ℕ × List ℕ
span_name [] = ([], [])
span_name (x ∷ s) =
    let rest = span_name s in if ends_name x then ([], x ∷ s) else (x ∷ rest.0, rest.1)

-- The inner loop of `opt_get`, on fuel: whether `name` is one of the names at `p`.
pub alias_loop : ℕ → List ℕ → List ℕ → Bool
unfolding span_name same_text
alias_loop zero p name = false
alias_loop (suc fuel) p name =
    let alias = (span_name p).0 in
    let next : Bool = elim (span_name p).1 [
      | [] ↦ false
      | x ∷ q ↦
          if not (x == b'|')
          then false
          else elim q [ [] ↦ false | y ∷ r ↦ alias_loop fuel (y ∷ r) name ]
    ] in
    if length alias == 0 then false else if same_text alias name then true else next

-- A turn passes a byte of the text at least.
unfoldable pub has_alias : List ℕ → List ℕ → Bool
unfolding alias_loop
has_alias p name = alias_loop (suc (length p)) p name
