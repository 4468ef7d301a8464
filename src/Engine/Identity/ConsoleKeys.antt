-- ===== src/Engine/Identity/ConsoleKeys.antt =====
-- Which console keys are trusted.
use sealr_verify.Common.{
  ℕ, suc, ◌≡◌, refl, ◌⊎◌, inl, inr, true, Bool-cases, Option, none, some, List, [], ◌∷◌, ◌++◌,
  get_elem?,
}
use sealr_verify.Common.Text.{codes, Str}
use sealr_verify.Common.Result.{Result, ok, err, EvidenceError}
use sealr_verify.Deps.{Digests, Ed25519, KeyPems}
use sealr_verify.Deps.X509.{X509}
use sealr_verify.Keys.{VerifyingKey, verify_jcs}
use sealr_verify.Keys.Pem.{from_spki_pem}
use sealr_verify.Bundle.Types.{RootsFile, AttestedConsoleKey, ConsoleKeyStatement, statement_value}
use sealr_verify.Report.{Finding, Severity, is_warning, any_severity, pass, compute_result}
use sealr_verify.Engine.{str_get}
use sealr_verify.Engine.Trust.{VerifyOptions, add}
use sealr_verify.Engine.Trust.Pinned.{warning-not_pass}
use sealr_verify.Engine.Maps.{str_get-str_insert, any_severity-append}
use sealr_verify.Engine.Identity.{
  KeyMap, root_keys, any_root, add_key, add_entry, add_entries, resolve_console_keys, succeeds,
}

module _ ⦃d : Digests⦄ ⦃e : Ed25519⦄ where
  -- the key of an entry of the bundle, with its statement signed by one of these roots
  pub record IsAttested ⦃k : KeyPems⦄ (roots : List VerifyingKey)
      (entries : List AttestedConsoleKey) (id : Str) (key : VerifyingKey) : Type 0 where
    pub index : ℕ
    pub entry : AttestedConsoleKey
    pub listed : get_elem? entries index ≡ some entry
    pub named : entry.statement.key_id ≡ id
    pub its_key : from_spki_pem entry.statement.public_key_pem ≡ ok key
    pub sig : Str
    pub signature : entry.signature ≡ some sig
    pub root : ℕ
    pub root_key : VerifyingKey
    pub root_listed : get_elem? roots root ≡ some root_key
    pub signed : verify_jcs root_key (statement_value entry.statement) sig ≡ ok tt

  succeeds→eq : (r : Result EvidenceError (Unit {0})) → succeeds r ≡ true → r ≡ ok tt
  succeeds→eq (ok u) h = refl
  succeeds→eq (err problem) h = absurd (cc)

  any_root_sound :
      (s : ConsoleKeyStatement) (sig : Str) (roots : List VerifyingKey)
      → any_root s sig roots ≡ true
      → (i : ℕ) × (rk : VerifyingKey) × (get_elem? roots i ≡ some rk)
        × (verify_jcs rk (statement_value s) sig ≡ ok tt)
  unfolding any_root
  any_root_sound s sig [] h = absurd (cc)
  any_root_sound s sig (rk ∷ roots) h =
      elim (Bool-cases (succeeds (verify_jcs rk (statement_value s) sig))) [
        | inl t ↦ (0, rk, refl, succeeds→eq _ t)
        | inr t ↦
            let (i, found, listed, signed) = any_root_sound s sig roots (rw t at h) in
            (suc i, found, listed, signed)
      ]

  module _ ⦃k : KeyPems⦄ (roots : List VerifyingKey) (all : List AttestedConsoleKey) (id : Str)
      (key : VerifyingKey) where
    -- a key of the map is attested, or there is a warning
    abbrev Known : List Finding × KeyMap → Type 0
    Known s =
        str_get id s.1 ≡ some key
        → IsAttested roots all id key ⊎ (any_severity is_warning s.0 ≡ true)

    nothing-Known : (findings : List Finding) → Known (findings, [])
    unfolding str_get
    nothing-Known findings h = absurd (cc (h))

    last_warning :
        (class : Str) (fs : List Finding)
        → any_severity is_warning (add Severity.warning class fs) ≡ true
    unfolding add
    last_warning class fs = any_severity-append_last fs
      where
        any_severity-append_last :
            (fs : List Finding)
            → any_severity is_warning (
                fs
                ++ record {
                  severity = Severity.warning;
                  class = class;
                  stream_id = none;
                  seq = none;
                }
                  ∷ [])
              ≡ true
        any_severity-append_last [] = refl
        any_severity-append_last (f ∷ fs) = elim (Bool-cases (is_warning f.severity)) [
          | inl t ↦ rw t refl
          | inr t ↦ rw t (any_severity-append_last fs)
        ]

    Known-add :
        (sev : Severity) (class : Str) (s : List Finding × KeyMap)
        → Known s
        → Known (add sev class s.0, s.1)
    unfolding add
    Known-add sev class s known h = elim (known h) [
      | inl attested ↦ inl attested
      | inr warned ↦ inr (any_severity-append is_warning s.0 _ warned)
    ]

    add_key-Known :
        (i : ℕ) (entry : AttestedConsoleKey) (new : VerifyingKey) (s : List Finding × KeyMap)
        → get_elem? all i ≡ some entry
        → from_spki_pem entry.statement.public_key_pem ≡ ok new
        → Known s
        → Known (add_key roots entry.statement entry.signature new s)
    unfolding add_key
    add_key-Known i entry new s listed parsed known = split entry.signature refl
      where
        split :
            (sig : Option Str)
            → entry.signature ≡ sig
            → Known (add_key roots entry.statement sig new s)
        split none unsigned h = inr (last_warning _ s.0)
        split (some sig) is_signed h = elim (Bool-cases (any_root entry.statement sig roots)) [
          | inr t ↦ rw t (Known-add Severity.error _ s known (rw t at h))
          | inl t ↦ elim (str_get-str_insert entry.statement.key_id id new s.1 (rw t at h)) [
            | inr old ↦ rw t (known old)
            | inl (named, same) ↦
                let (r, rk, root_listed, signed) = any_root_sound entry.statement sig roots t in
                inl (record {
                  index = i;
                  entry = entry;
                  listed = listed;
                  named = named;
                  its_key = rw (← same) parsed;
                  sig = sig;
                  signature = is_signed;
                  root = r;
                  root_key = rk;
                  root_listed = root_listed;
                  signed = signed;
                })
          ]
        ]

    add_entry-Known :
        (i : ℕ) (entry : AttestedConsoleKey) (s : List Finding × KeyMap)
        → get_elem? all i ≡ some entry
        → Known s
        → Known (add_entry roots entry s)
    unfolding add_entry
    add_entry-Known i entry s listed known =
        split (from_spki_pem entry.statement.public_key_pem) refl
      where
        split :
            (out : Result EvidenceError VerifyingKey)
            → from_spki_pem entry.statement.public_key_pem ≡ out
            → Known (elim out [
              | err problem ↦ (add Severity.warning (codes "console_key_unparseable") s.0, s.1)
              | ok new ↦ add_key roots entry.statement entry.signature new s
            ])
        split (err problem) parsed = Known-add Severity.warning _ s known
        split (ok new) parsed = add_key-Known i entry new s listed parsed known

    add_entries-Known :
        (entries : List AttestedConsoleKey) (s : List Finding × KeyMap)
        → ((i : ℕ) (entry : AttestedConsoleKey)
            → get_elem? entries i ≡ some entry
            → (j : ℕ) × (get_elem? all j ≡ some entry))
        → Known s
        → Known (add_entries roots entries s)
    unfolding add_entries
    add_entries-Known [] s within known = known
    add_entries-Known (entry ∷ entries) s within known =
        let (j, listed) = within 0 entry refl in
        add_entries-Known entries (add_entry roots entry s) (λ i q h. within (suc i) q h)
          (add_entry-Known j entry s listed known)

  -- Where no console key is given and the result is `Pass`, whatever else is found, each console key
  -- is of an entry of the bundle whose statement one of the trusted roots signed.
  pub resolve_console_keys_sound :
      ⦃k : KeyPems⦄ ⦃x : X509⦄ (opts : VerifyOptions) (file : RootsFile) (root_pems : List Str)
      (findings later : List Finding) (id : Str) (key : VerifyingKey)
      → opts.console_key_override ≡ none
      → compute_result ((resolve_console_keys opts (some file) root_pems findings).0 ++ later)
        ≡ pass
      → str_get id (resolve_console_keys opts (some file) root_pems findings).1 ≡ some key
      → IsAttested (root_keys root_pems) file.console_keys id key
  unfolding resolve_console_keys
  resolve_console_keys_sound opts file root_pems findings later id key given passes h =
      let roots = root_keys root_pems in
      let start = nothing-Known roots file.console_keys id key findings in
      let known =
        add_entries-Known roots file.console_keys id key file.console_keys (findings, [])
          (λ i q listed. (i, listed)) start in
      elim (known (rw given at h)) [
        | inl attested ↦ attested
        | inr warned ↦
            let fs = (add_entries roots file.console_keys (findings, [])).0 in
            absurd (
              warning-not_pass (fs ++ later) (any_severity-append is_warning fs later warned)
                (rw given at passes))
      ]
