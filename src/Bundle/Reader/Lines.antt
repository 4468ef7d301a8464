-- ===== src/Bundle/Reader/Lines.antt =====
-- The lines of a shard: text that is written line by line is read back line by line.
use sealr_verify.Common.{
  ℕ, ◌+◌, ◌%◌, ◌^◌, ◌≡◌, refl, sym, ap, ◌∙◌, true, false, List, [], ◌∷◌, ◌++◌, map, All, ◌==◌,
}
use sealr_verify.Common.Text.{Bytes}
use sealr_verify.Common.Result.{Result, BundleError}
use sealr_verify.Common.Run.{Run, ◌>>=◌, ◌>>◌, pure, after-after, after-cong}
use sealr_verify.Bundle.Reader.Streams.{raw_lines, trim_newline, deliver, read_lines}

-- bytes of a line that has some, without its newline
pub record IsBody (b : Bytes) : Type 0 where
  pub head : ℕ
  pub tail : Bytes
  pub is : b ≡ head ∷ tail
  pub no_newline : All (λ x. (x == 10) ≡ false) b

-- the line as it is stored
abbrev pub stored_line : Bytes → Bytes
stored_line body = body ++ 10 ∷ []

abbrev pub joined : List Bytes → Bytes
joined [] = []
joined (l ∷ ls) = l ++ joined ls

raw_lines-line :
    (body rest : Bytes)
    → All (λ x. (x == 10) ≡ false) body
    → raw_lines (stored_line body ++ rest) ≡ stored_line body ∷ raw_lines rest
unfolding raw_lines
raw_lines-line [] rest h = refl
raw_lines-line (b ∷ body) rest (this, h) = rw (this, raw_lines-line body rest h)

pub raw_lines-joined :
    (bodies : List Bytes)
    → All IsBody bodies
    → raw_lines (joined (map stored_line bodies)) ≡ map stored_line bodies
raw_lines-joined [] h = unfold raw_lines in refl
raw_lines-joined (b ∷ bodies) (this, h) =
    raw_lines-line b (joined (map stored_line bodies)) this.no_newline
    ∙ ap (λ l. stored_line b ∷ l) (raw_lines-joined bodies h)

trim_newline-line :
    (body : Bytes)
    → All (λ x. (x == 10) ≡ false) body
    → trim_newline (stored_line body) ≡ (body, true)
unfolding trim_newline
trim_newline-line [] h = refl
trim_newline-line (b ∷ []) h = refl
trim_newline-line (b ∷ e ∷ body) (this, h) = rw (trim_newline-line (e ∷ body) h)

module _ {S : Type 0} (f : Bytes → Run BundleError S (Unit {0})) where
  -- `f` on each body in turn, and their number
  abbrev pub each : List Bytes → ℕ → Run BundleError S ℕ
  each [] count = pure count
  each (body ∷ bodies) count = do f body; each bodies ((count + 1) % 2 ^ 64)

  pub read_lines-each :
      (bodies : List Bytes) (count : ℕ) (s : S)
      → All IsBody bodies
      → read_lines f true (map stored_line bodies) count s ≡ each bodies count s
  unfolding read_lines deliver
  read_lines-each [] count s h = refl
  read_lines-each (b ∷ bodies) count s (this, h) =
      let next : ℕ = (count + 1) % 2 ^ 64 in
      let out : Result BundleError (Unit {0}) × S = f (this.head ∷ this.tail) s in
      rw (trim_newline-line b this.no_newline, this.is)
        (after-after (λ u. pure next) (read_lines f true (map stored_line bodies)) out
          ∙ after-cong (λ u. read_lines f true (map stored_line bodies) next)
              (λ u. each bodies next) out (λ u t. read_lines-each bodies next t h))

  pub each-append :
      (xs ys : List Bytes) (count : ℕ) (s : S)
      → each (xs ++ ys) count s ≡ (each xs count >>= each ys) s
  each-append [] ys count s = refl
  each-append (x ∷ xs) ys count s =
      let next : ℕ = (count + 1) % 2 ^ 64 in
      after-cong (λ u. each (xs ++ ys) next) (λ u. each xs next >>= each ys) (f x s)
        (λ u t. each-append xs ys next t)
      ∙ sym (after-after (λ u. each xs next) (each ys) (f x s))
