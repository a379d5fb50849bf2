-- ===== src/Cron/Logger/Verbs.antt =====
-- That the format texts of the log calls have a verb for each argument.
use Prim.Native.Nat.{◌/◌, ◌%◌}
use Prim.Native.String.append
use es_snapshot_restore.Base.{
  Bool-cases, inl, inr, ℕ, zero, suc, ◌+◌, ◌*◌, ◌<>◌, ◌≡◌, ap, ◌∙◌, String, List, [], ◌∷◌, ◌++◌,
  ◌↔◌, length, length-append, arith, eqb, ltb, if◌then◌else◌,
}
use es_snapshot_restore.Utils.Size.{codes}
use es_snapshot_restore.Cron.{format_pairs, format_string}
use es_snapshot_restore.Cron.Logger.{Arg, format_times, format_time, info, error}

-- Every verb of these texts begins with a percent sign, and nothing else has one.
abbrev pub verbs : List ℕ → ℕ
verbs [] = 0
verbs (c ∷ s) = (if eqb c b'%' then 1 else 0) + verbs s

verbs-append : (s t : String) → verbs (codes (s <> t)) ≡ verbs (codes s) + verbs (codes t)
verbs-append String.[] t = ap (λ u. verbs (codes u)) (append.nil t) ∙ omega arith
verbs-append (String.◌∷◌ c s) t =
    ap (λ u. verbs (codes u)) (append.cons c s t) ∙ omega (arith, verbs-append s t)

verbs-format_pairs :
    (n i : ℕ) (s : String) → verbs (codes (format_pairs n i s)) ≡ verbs (codes s) + 2 * n
unfolding format_pairs
verbs-format_pairs zero i s = omega arith
verbs-format_pairs (suc n) i s = elim (Bool-cases (ltb 0 i)) [
  | inl later ↦ rw later (
      verbs-format_pairs n (suc i) ((s <> ", ") <> "%v=%v")
      ∙ omega (arith, verbs-append (s <> ", ") "%v=%v", verbs-append s ", "))
  | inr first ↦
      rw first (verbs-format_pairs n (suc i) (s <> "%v=%v") ∙ omega (arith, verbs-append s "%v=%v"))
]

verbs-format_string : (n : ℕ) → verbs (codes (format_string n)) ≡ 1 + 2 * (n / 2)
unfolding format_string
verbs-format_string n = elim (Bool-cases (ltb 0 n)) [
  | inl some_pairs ↦ rw some_pairs (verbs-format_pairs (n / 2) 0 "%s, ")
  | inr no_pairs ↦ rw no_pairs (verbs-format_pairs (n / 2) 0 "%s")
]

module _ {T : Type 0} (show_time : T → String) where
  length-format_times :
      (out kv : List (Arg T)) → length (format_times show_time out kv) ≡ length out + length kv
  unfolding format_times
  length-format_times out [] = omega arith
  length-format_times out (a ∷ kv) = omega (
    arith,
    length-format_times (out ++ (format_time show_time a ∷ [])) kv,
    length-append out (format_time show_time a ∷ []),
  )

  -- A log call of the scheduler passes on as many arguments as its format text has verbs just if it
  -- is given an even number of keys and values, be it for a message or for an error.
  pub log_fits :
      (e msg : String) (kv : List (Arg T))
      → ((verbs (codes ((info show_time msg kv).format)) ≡ length (info show_time msg kv).args)
          ↔ (length kv % 2 ≡ 0))
        × ((verbs (codes ((error show_time e msg kv).format))
              ≡ length (error show_time e msg kv).args)
            ↔ (length kv % 2 ≡ 0))
  unfolding info error
  log_fits e msg kv =
      let n = length (format_times show_time [] kv) in
      let same = length-format_times [] kv in
      let cron = verbs-append "[CRON] " (format_string n) in
      let short = verbs-format_string n in
      let long = verbs-format_string (n + 2) in
      (
        (λ h. omega (arith, h, same, cron, short), λ h. omega (arith, h, same, cron, short)),
        (λ h. omega (arith, h, same, long), λ h. omega (arith, h, same, long)),
      )
