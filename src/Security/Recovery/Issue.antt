-- ===== src/Security/Recovery/Issue.antt =====
-- `issue_recovery_codes`: the loop that draws the tokens, and the codes that a user is left with.
use taha_mohammadi_platform.Prelude.{
  ℕ, zero, suc, ◌+◌, ◌≤◌, String, some, List, [], ◌∷◌, ◌++◌, map, ◌<>◌, ◌≡◌, ◌≢◌, refl, ap, subst,
  inl, inr, arith, eqb_refl, Bool-cases, Option-cases,
}
use taha_mohammadi_platform.Prelude.Lists.{contains, dedup, dedup_from, take, text_eq, length}
use taha_mohammadi_platform.Prelude.Text.{clip}
use taha_mohammadi_platform.Prelude.Decimal.{upper, show_nat}
use taha_mohammadi_platform.Security.Recovery.{
  RecoveryCode, Vault, Unicode, generate, format_display, is_unused, unused_recovery_code_count,
  without_unused, new_codes, reissued, issue_recovery_codes,
}

generate-length :
    (n : ℕ) (seen draws plains : List String)
    → generate n seen draws ≡ some plains
    → length plains ≡ n
unfolding generate
generate-length zero seen draws plains h =
    let e : [] ≡ plains = cc h in subst (λ l. length l ≡ 0) e refl
generate-length (suc n) seen [] plains h = cc h
generate-length (suc n) seen (d ∷ draws) plains h = elim (Bool-cases (contains seen (upper d))) [
  | inl again ↦ generate-length (suc n) seen draws plains (rw again at h)
  | inr new ↦ elim (Option-cases (generate n (upper d ∷ seen) draws)) [
    | inl nothing ↦ cc (rw (new, nothing) at h)
    | inr (rest, found) ↦
        let e : format_display (upper d) ∷ rest ≡ plains = cc (rw (new, found) at h) in
        subst (λ l. length l ≡ suc n) e
          (ap suc (generate-length n (upper d ∷ seen) draws rest found))
  ]
]

-- The codes are those of the first n different tokens, in the order in which they were drawn.
generate-some :
    (n : ℕ) (seen draws : List String)
    → n ≤ length (dedup_from seen (map upper draws))
    → generate n seen draws ≡ some (map format_display (take n (dedup_from seen (map upper draws))))
unfolding generate dedup_from
generate-some zero seen draws enough = refl
generate-some (suc n) seen [] enough = absurd (omega (arith, enough))
generate-some (suc n) seen (d ∷ draws) enough = elim (Bool-cases (contains seen (upper d))) [
  | inl old ↦ rw (old, generate) (generate-some (suc n) seen draws (rw (old, dedup_from) at enough))
  | inr new ↦
      let more : suc n ≤ suc (length (dedup_from (upper d ∷ seen) (map upper draws))) =
        rw (new, dedup_from) at enough in
      rw (new, generate, generate-some n (upper d ∷ seen) draws (omega (arith, more))) refl
]

without_unused-count :
    (user : ℕ) (rows : List RecoveryCode)
    → unused_recovery_code_count user (without_unused user rows) ≡ 0
unfolding unused_recovery_code_count without_unused
without_unused-count user [] = refl
without_unused-count user (row ∷ rows) = elim (Bool-cases (is_unused user row)) [
  | inl gone ↦ rw gone (without_unused-count user rows)
  | inr kept ↦ rw (kept, kept) (without_unused-count user rows)
]

without_unused-other :
    (user u : ℕ) (rows : List RecoveryCode)
    → u ≢ user
    → unused_recovery_code_count u (without_unused user rows) ≡ unused_recovery_code_count u rows
unfolding unused_recovery_code_count without_unused
without_unused-other user u [] apart = refl
without_unused-other user u (row ∷ rows) apart = ground (arith, without_unused-other user u rows)

count-append :
    (u : ℕ) (xs ys : List RecoveryCode)
    → unused_recovery_code_count u (xs ++ ys)
      ≡ unused_recovery_code_count u xs + unused_recovery_code_count u ys
unfolding unused_recovery_code_count
count-append u [] ys = omega arith
count-append u (x ∷ xs) ys = ground (arith, count-append u xs ys)

module _ (unicode : Unicode) (make_password : ℕ → String → String) (fresh : ℕ → ℕ) where
  new_codes-count :
      (user i : ℕ) (plains : List String)
      → unused_recovery_code_count user (new_codes unicode make_password fresh user i plains)
        ≡ length plains
  unfolding unused_recovery_code_count new_codes
  new_codes-count user i [] = refl
  new_codes-count user i (p ∷ plains) =
      ground (arith, new_codes-count user (suc i) plains, eqb_refl user)

  new_codes-other :
      (user u i : ℕ) (plains : List String)
      → u ≢ user
      → unused_recovery_code_count u (new_codes unicode make_password fresh user i plains) ≡ 0
  unfolding unused_recovery_code_count new_codes
  new_codes-other user u i [] apart = refl
  new_codes-other user u i (p ∷ plains) apart =
      ground (arith, new_codes-other user u (suc i) plains)

  -- Issuing n codes ends once n different tokens are among those that are drawn, however often
  -- tokens repeat: it shows the codes of the first n different ones, in the order in which they came.
  -- The user then has exactly n unused codes, whatever was left before, every other user as many as
  -- before, and one audit row is appended.
  pub issue_recovery_codes_replaces :
      (user n : ℕ) (ip : String) (draws : List String) (v : Vault)
      → n ≤ length (dedup (map upper draws))
      → (plains : List String) × (after : Vault) × (issue_recovery_codes unicode make_password fresh
            user n ip draws v
          ≡ some (plains, after))
        × (plains ≡ map format_display (take n (dedup (map upper draws))))
        × (length plains ≡ n)
        × (unused_recovery_code_count user after.codes ≡ n)
        × ((u : ℕ)
            → u ≢ user
            → unused_recovery_code_count u after.codes ≡ unused_recovery_code_count u v.codes)
        × (after.audit
            ≡ v.audit
              ++ record {
                user = user;
                action = "mfa.recovery_issued";
                model_name = "recoverycode";
                object_id = show_nat user;
                ip = clip 45 ip;
                detail = "issued=" <> show_nat n;
              }
                ∷ [])
  unfolding issue_recovery_codes dedup
  issue_recovery_codes_replaces user n ip draws v enough =
      let plains = map format_display (take n (dedup (map upper draws))) in
      let found = generate-some n [] draws enough in
      let size = generate-length n [] draws plains found in
      let old = without_unused user v.codes in
      let new = new_codes unicode make_password fresh user 0 plains in
      (
        plains,
        reissued unicode make_password fresh user n ip plains v,
        rw (issue_recovery_codes, found) refl,
        refl,
        size,
        omega (
          arith,
          count-append user old new,
          without_unused-count user v.codes,
          new_codes-count user 0 plains,
          size,
        ),
        λ u apart. omega (
          arith,
          count-append u old new,
          without_unused-other user u v.codes apart,
          new_codes-other user u 0 plains apart,
        ),
        refl,
      )
