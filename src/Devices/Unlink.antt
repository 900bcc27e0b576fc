-- ===== src/Devices/Unlink.antt =====
-- The loop of `device_unregister`, on the list of devices.
use minimalist_os.Base.{
  ℕ, zero, suc, ◌<◌, ◌≡◌, ◌≢◌, ◌⊎◌, refl, sym, ap, ◌∙◌, List, [], ◌∷◌, true, false, none, some,
  ◌==◌, arith, length, inl, inr, Bool-cases, is_zero,
}
use minimalist_os.CString.{strcmp}
use minimalist_os.Devices.{DeviceInfo, Devices, update, bypass, unlink, has_name}
use minimalist_os.Devices.Chain.{Entry, Chain, Apart, Distinct, first_match, remove_first}
use minimalist_os.Devices.Nodes.{Chain-update}

module _ {D : Type 0} where
  -- What the loop has done to the entries behind `prev`, at the address `e` of the removed one.
  record Unlinked (s s' : Devices D) (prev : ℕ) (ds ds' : List (Entry D)) : Type 0 where
    first : s'.device_list ≡ s.device_list
    info : (s'.nodes prev).info ≡ (s.nodes prev).info
    chain : Chain s'.nodes (s'.nodes prev).next ds'
    others : (b : ℕ) → b ≢ prev → Apart b ds → s'.nodes b ≡ s.nodes b

  -- How the loop ends, for a list behind `prev` which is not null.
  Ends : ℕ → List ℕ → ℕ → Devices D → List (Entry D) → Type 0
  Ends fuel name prev s ds =
      (unlink fuel name (s.nodes prev).next prev s ≡ none) × (first_match (has_name name) ds ≡ none)
      ⊎ ((e : Entry D) × (s' : Devices D) × (unlink fuel name (s.nodes prev).next prev s
            ≡ some (e.0, s'))
          × (first_match (has_name name) ds ≡ some e)
          × Unlinked s s' prev ds (remove_first (has_name name) ds))

  bypass-Unlinked :
      (s : Devices D) (prev a : ℕ) (d : DeviceInfo D) (ds : List (Entry D))
      → prev ≢ 0
      → Apart prev ds
      → Chain s.nodes (s.nodes a).next ds
      → Unlinked s (bypass prev a s) prev ((a, d) ∷ ds) ds
  unfolding bypass update
  bypass-Unlinked s prev a d ds real apart rest =
      let other : (prev == 0) ≡ false = ground arith in
      let self : (prev == prev) ≡ true = ground arith in
      rw other (record {
        first = refl;
        info = rw self refl;
        chain = rw self (
            Chain-update s.nodes prev (s.nodes a).next
              (record (s.nodes prev) { next = (s.nodes a).next }) ds apart rest);
        others = λ b ne _. (let away : (prev == b) ≡ false = ground arith in rw away refl);
      })

  unlink-Ends :
      (fuel : ℕ) (name : List ℕ) (prev : ℕ) (s : Devices D) (ds : List (Entry D))
      → prev ≢ 0
      → Apart prev ds
      → Distinct ds
      → Chain s.nodes (s.nodes prev).next ds
      → length ds < fuel
      → Ends fuel name prev s ds
  unfolding Ends unlink has_name
  unlink-Ends zero name prev s ds real apart distinct chain enough = absurd (omega arith)
  unlink-Ends (suc fuel) name prev s [] real apart distinct null enough = inl (rw null refl, refl)
  unlink-Ends (suc fuel) name prev s ((a, d) ∷ ds) real (ne, apart) (away, distinct)
        (here, there, info, rest) enough =
      let other : (a == 0) ≡ false = ground arith in
      elim (Bool-cases (is_zero (strcmp d.name name))) [
        | inl hit ↦ inr (
          (a, d),
          bypass prev a s,
          rw (here, other, info, hit) refl,
          rw hit refl,
          rw hit (bypass-Unlinked s prev a d ds real apart rest),
        )
        | inr miss ↦ elim (unlink-Ends fuel name a s ds there away distinct rest (omega arith)) [
          | inl (ends, gone) ↦ inl (rw (here, other, info, miss) ends, rw miss gone)
          | inr (e, s', ends, found, u) ↦
              let same : s'.nodes prev ≡ s.nodes prev = u.others prev ne apart in
              inr (
                e,
                s',
                rw (here, other, info, miss) ends,
                rw miss found,
                rw miss (record {
                  first = u.first;
                  info = ap (λ n. n.info) same;
                  chain = (ap (λ n. n.next) same ∙ here, there, u.info ∙ info, u.chain);
                  others = λ b ne' (ne'', apart'). u.others b ne'' apart';
                }),
              )
        ]
      ]

  -- The loop from the head of the list.
  pub unlink-head :
      (fuel : ℕ) (name : List ℕ) (p : ℕ) (s : Devices D) (ds : List (Entry D))
      → Distinct ds
      → Chain s.nodes p ds
      → p ≡ s.device_list
      → length ds < fuel
      → (unlink fuel name p 0 s ≡ none) × (first_match (has_name name) ds ≡ none)
        ⊎ ((e : Entry D) × (s' : Devices D) × (unlink fuel name p 0 s ≡ some (e.0, s'))
            × (first_match (has_name name) ds ≡ some e)
            × Chain s'.nodes s'.device_list (remove_first (has_name name) ds))
  unfolding unlink bypass Ends has_name
  unlink-head zero name p s ds distinct chain head enough = absurd (omega arith)
  unlink-head (suc fuel) name p s [] distinct null head enough = inl (rw null refl, refl)
  unlink-head (suc fuel) name p s ((a, d) ∷ ds) (away, distinct) (here, there, info, rest) head
        enough =
      let other : (a == 0) ≡ false = ground arith in
      elim (Bool-cases (is_zero (strcmp d.name name))) [
        | inl hit ↦ inr (
          (a, d),
          record s { device_list = (s.nodes a).next },
          rw (here, other, info, hit) refl,
          rw hit refl,
          rw hit rest,
        )
        | inr miss ↦ elim (unlink-Ends fuel name a s ds there away distinct rest (omega arith)) [
          | inl (ends, gone) ↦ inl (rw (here, other, info, miss) ends, rw miss gone)
          | inr (e, s', ends, found, u) ↦ inr (
            e,
            s',
            rw (here, other, info, miss) ends,
            rw miss found,
            rw miss (u.first ∙ sym head ∙ here, there, u.info ∙ info, u.chain),
          )
        ]
      ]
