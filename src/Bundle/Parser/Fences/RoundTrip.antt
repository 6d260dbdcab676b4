-- ===== src/Bundle/Parser/Fences/RoundTrip.antt =====
-- What `split_frontmatter` reads from a front matter that was written line by line.
use Prim.Native.Char.{Char, code}
use mathlib.Core.Option
use a2ex.Base.{
  ℕ, zero, suc, ◌+◌, ◌-◌, String, List, [], ◌∷◌, none, some, is_some, Bool, true, false, ◌≡◌, ◌≢◌,
  refl, ap, arith, ok, eqb, leb, ltb, All, ◌==◌, ◌∙◌,
}
use a2ex.Base.Text.{join}
use a2ex.Base.Text.Split.{split_step, split, strip_return, lines_of, lines, strip_prefix}
use a2ex.Base.Text.Matches.{trim_start_matches}
use a2ex.Bundle.Parser.Fences.{
  normalize_lines, utf8_len, byte_len, slice_from, find_fence, without_first, body_after,
  split_frontmatter,
}

-- a text in front of another
abbrev pub followed_by : String → String → String
followed_by String.[] t = t
followed_by (String.◌∷◌ c s) t = String.◌∷◌ c (followed_by s t)

-- lines, each with its line feed, in front of a text
abbrev pub written : List String → String → String
written [] rest = rest
written (line ∷ more) rest = followed_by line (String.◌∷◌ "\n" (written more rest))

-- no character of the text has the code `n`
abbrev pub HasNo : ℕ → String → Type 0
HasNo n String.[] = Unit
HasNo n (String.◌∷◌ c s) = (eqb (code c) n ≡ false) × HasNo n s

-- a line of a front matter: no line feed, no carriage return and not the fence
abbrev pub IsLine : String → Type 0
IsLine line = HasNo 10 line × HasNo 13 line × ((line == "---") ≡ false)

normalize_lines-HasNo : (s : String) → HasNo 13 s → normalize_lines s ≡ s
unfolding normalize_lines
normalize_lines-HasNo String.[] h = refl
normalize_lines-HasNo (String.◌∷◌ c s) h = rw (h.0, normalize_lines-HasNo s h.1) refl

HasNo-followed_by : (s t : String) → HasNo 13 s → HasNo 13 t → HasNo 13 (followed_by s t)
HasNo-followed_by String.[] t hs ht = ht
HasNo-followed_by (String.◌∷◌ c s) t hs ht = (hs.0, HasNo-followed_by s t hs.1 ht)

HasNo-written :
    (front : List String) (rest : String)
    → All IsLine front
    → HasNo 13 rest
    → HasNo 13 (written front rest)
HasNo-written [] rest h hr = hr
HasNo-written (line ∷ more) rest h hr =
    HasNo-followed_by line _ h.0.1 (refl, HasNo-written more rest h.1 hr)

strip_return-HasNo : (s : String) → HasNo 13 s → strip_return s ≡ s
strip_return-HasNo String.[] h = refl
strip_return-HasNo (String.◌∷◌ c String.[]) h = rw h.0 refl
strip_return-HasNo (String.◌∷◌ c (String.◌∷◌ d s)) h =
    ap (λ t. String.◌∷◌ c t) (strip_return-HasNo (String.◌∷◌ d s) h.1)

split-followed_by :
    (line t : String)
    → HasNo 10 line
    → split "\n" (followed_by line (String.◌∷◌ "\n" t)) ≡ line ∷ split "\n" t
unfolding split
split-followed_by String.[] t h = refl
split-followed_by (String.◌∷◌ c line) t h = rw (h.0, split-followed_by line t h.1) refl

split_step-ne_nil : (b : Bool) (c : Char) (parts : List String) → split_step b c parts ≢ []
split_step-ne_nil true c parts = λ e. cc e
split_step-ne_nil false c [] = λ e. cc e
split_step-ne_nil false c (part ∷ parts) = λ e. cc e

split-ne_nil : (t : String) → split "\n" t ≢ []
unfolding split
split-ne_nil String.[] = λ e. cc e
split-ne_nil (String.◌∷◌ c s) = split_step-ne_nil _ c (split "\n" s)

lines_of-cons :
    (line : String) (parts : List String)
    → parts ≢ []
    → lines_of (line ∷ parts) ≡ strip_return line ∷ lines_of parts
lines_of-cons line [] h = absurd (h refl)
lines_of-cons String.[] (part ∷ parts) h = refl
lines_of-cons (String.◌∷◌ c line) (part ∷ parts) h = refl

lines-followed_by :
    (line t : String)
    → HasNo 10 line
    → HasNo 13 line
    → lines (followed_by line (String.◌∷◌ "\n" t)) ≡ line ∷ lines t
unfolding lines
lines-followed_by line t hl hr =
    rw
      (
        split-followed_by line t hl,
        lines_of-cons line (split "\n" t) (split-ne_nil t),
        strip_return-HasNo line hr,
      )
      refl

-- the bytes of the lines with their line feeds
abbrev size : List String → ℕ
size [] = 0
size (line ∷ more) = byte_len line + 1 + size more

-- the closing fence is found where the lines end, if what follows them starts with it
find_fence-written :
    (offset : ℕ) (front : List String) (rest : String) (after : List String)
    → All IsLine front
    → lines rest ≡ "---" ∷ after
    → find_fence offset (lines (written front rest)) ≡ some (front, offset + size front + 4)
unfolding find_fence
find_fence-written offset [] rest after h fence = rw fence (ap (λ n. some ([], n)) (omega arith))
find_fence-written offset (line ∷ more) rest after h fence =
    rw
      (
        lines-followed_by line (written more rest) h.0.0 h.0.1,
        h.0.2,
        find_fence-written (offset + byte_len line + 1) more rest after h.1 fence,
      )
      (ap (λ n. some (line ∷ more, n)) (omega arith))

utf8_len-positive : (c : Char) → ltb 0 (utf8_len c) ≡ true
utf8_len-positive c = ground arith

slice_from-followed_by :
    (n k : ℕ) (s t : String) → n ≡ byte_len s + k → slice_from n (followed_by s t) ≡ slice_from k t
unfolding slice_from
slice_from-followed_by n k String.[] t e = ap (λ m. slice_from m t) (omega (arith, e))
slice_from-followed_by zero k (String.◌∷◌ c s) t e =
    absurd (let positive = utf8_len-positive c in ground arith)
slice_from-followed_by (suc n) k (String.◌∷◌ c s) t e =
    let fits : leb (utf8_len c) (suc n) ≡ true = ground arith in
    rw (fits, slice_from-followed_by (suc n - utf8_len c) k s t (omega (arith, e))) refl

slice_from-written :
    (n k : ℕ) (front : List String) (rest : String)
    → n ≡ size front + k
    → slice_from n (written front rest) ≡ slice_from k rest
slice_from-written n k [] rest e = ap (λ m. slice_from m rest) (omega (arith, e))
slice_from-written n k (line ∷ more) rest e =
    slice_from-followed_by n (1 + (size more + k)) line _ (omega (arith, e))
    ∙ (slice_from-followed_by (1 + (size more + k)) (size more + k) "\n" (written more rest)
          (omega arith)
        ∙ slice_from-written (size more + k) k more rest refl)

opened :
    (text : String)
    → normalize_lines text ≡ text
    → is_some (strip_prefix "---\n" text) ≡ true
    → split_frontmatter text ≡ body_after text (find_fence 4 (without_first (lines text)))
unfolding split_frontmatter
opened text same fence = rw (same, fence) refl

-- the fence has no line feed and no carriage return
fence_feeds : HasNo 10 "---"
fence_feeds = (refl, (refl, (refl, tt)))

fence_returns : HasNo 13 "---"
fence_returns = (refl, (refl, (refl, tt)))

-- how a text is split that starts with a front matter whose lines end in front of `rest`
split_frontmatter-written :
    (front : List String) (rest : String) (after : List String)
    → All IsLine front
    → HasNo 13 rest
    → lines rest ≡ "---" ∷ after
    → split_frontmatter (written ("---" ∷ front) rest)
      ≡ Option.map
          (λ body. ok (some (join "\n" front), trim_start_matches 10 body))
          (slice_from 4 rest)
unfolding strip_prefix body_after
split_frontmatter-written front rest after plain clean fence =
    let text = written ("---" ∷ front) rest in
    let clean_text : HasNo 13 text =
      (refl, (refl, (refl, (refl, HasNo-written front rest plain clean)))) in
    opened text (normalize_lines-HasNo text clean_text) refl
    ∙ (ap (λ ls. body_after text (find_fence 4 (without_first ls)))
          (lines-followed_by "---" (written front rest) fence_feeds fence_returns)
        ∙ (ap (λ found. body_after text found) (find_fence-written 4 front rest after plain fence)
            ∙ ap (Option.map (λ body. ok (some (join "\n" front), trim_start_matches 10 body)))
                (slice_from-written (4 + size front + 4) 4 ("---" ∷ front) rest (omega arith))))

-- A front matter that is written line by line between two fences, and the text behind it, is read
-- back: the lines that are joined, and the text without the line feeds in front of it.
-- Condition: no line is a fence or has a line feed, and there is no carriage return.
pub split_frontmatter-roundtrip :
    (front : List String) (body : String)
    → All IsLine front
    → HasNo 13 body
    → split_frontmatter (written ("---" ∷ front) (written ("---" ∷ []) body))
      ≡ some (ok (some (join "\n" front), trim_start_matches 10 body))
unfolding slice_from
split_frontmatter-roundtrip front body plain clean =
    split_frontmatter-written front (written ("---" ∷ []) body) (lines body) plain
      (refl, (refl, (refl, (refl, clean)))) (lines-followed_by "---" body fence_feeds fence_returns)
    ∙ refl

-- Where the closing fence ends the text, with no line feed behind it, the parser panics.
-- Condition: no line of the front matter is a fence or has a line feed or a carriage return.
pub split_frontmatter-panics :
    (front : List String)
    → All IsLine front
    → split_frontmatter (written ("---" ∷ front) "---") ≡ none
unfolding slice_from lines split
split_frontmatter-panics front plain =
    split_frontmatter-written front "---" [] plain fence_returns refl ∙ refl
