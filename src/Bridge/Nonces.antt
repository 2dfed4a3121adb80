-- ===== src/Bridge/Nonces.antt =====
-- The memory of nonces, bridge/sync.py.
use text.Mathlib.TextPositions.{eq_refl}
use fire_ai.Prelude.{
  ℕ, suc, ◌+◌, ◌≤◌, ◌<◌, ◌≡◌, ap, ◌∙◌, String, true, false, Bool-cases, inl, inr, List, [], ◌∷◌,
  ◌++◌, length, ltb, arith,
}
use mathlib.Core.List.{append_assoc}
use fire_ai.Bridge.{nonce_memory, has_nonce, trim, remember_nonce}

module _ {N : Type 0} where
  length-append : (xs ys : List N) → length (xs ++ ys) ≡ length xs + length ys
  length-append [] ys = omega arith
  length-append (x ∷ xs) ys = omega (arith, length-append xs ys)

module _ {N : Type 0} where
  length-trim : (xs : List (String × N)) → length (trim xs) ≤ nonce_memory
  unfolding trim
  length-trim [] = omega arith
  length-trim (x ∷ xs) = ground (arith, length-trim xs)

  -- The memory holds at most 500 nonces, if it did before.
  pub length-remember_nonce :
      (now : N) (nonce : String) (seen : List (String × N))
      → length seen ≤ nonce_memory
      → length (remember_nonce now nonce seen).0 ≤ nonce_memory
  unfolding remember_nonce
  length-remember_nonce now nonce seen h = ground (arith, length-trim (seen ++ (nonce, now) ∷ []))

  -- A nonce that was remembered, with fewer than `k` nonces remembered after it.
  pub record IsRecent (nonce : String) (k : ℕ) (seen : List (String × N)) : Type 0 where
    pub older : List (String × N)
    pub at : N
    pub newer : List (String × N)
    pub split : seen ≡ older ++ (nonce, at) ∷ newer
    pub few : length newer < k

  has_nonce-middle :
      (nonce : String) (at : N) (xs ys : List (String × N))
      → has_nonce nonce (xs ++ (nonce, at) ∷ ys) ≡ true
  unfolding has_nonce
  has_nonce-middle nonce at [] ys = rw (eq_refl)
  has_nonce-middle nonce at ((m, u) ∷ xs) ys = ground (arith, has_nonce-middle nonce at xs ys)

  trim-middle :
      (nonce : String) (at : N) (xs ys : List (String × N))
      → length ys < nonce_memory
      → (older : List (String × N)) × (trim (xs ++ (nonce, at) ∷ ys) ≡ older ++ (nonce, at) ∷ ys)
  unfolding trim
  trim-middle nonce at [] ys h = ([], ground arith)
  trim-middle nonce at (x ∷ xs) ys h =
      elim (Bool-cases (ltb nonce_memory (length (x ∷ (xs ++ (nonce, at) ∷ ys))))) [
        | inl long ↦ rw long (trim-middle nonce at xs ys h)
        | inr short ↦ (x ∷ xs, rw short)
      ]

  IsRecent-remember_nonce :
      (now : N) (m nonce : String) (k : ℕ) (seen : List (String × N))
      → k < nonce_memory
      → IsRecent nonce k seen
      → IsRecent nonce (suc k) (remember_nonce now m seen).0
  unfolding remember_nonce
  IsRecent-remember_nonce now m nonce k seen small r = elim (Bool-cases (has_nonce m seen)) [
    | inl old ↦ rw old (record {
      older = r.older;
      at = r.at;
      newer = r.newer;
      split = r.split;
      few = omega (arith, r.few);
    })
    | inr new ↦ rw new (
        let newer = r.newer ++ (m, now) ∷ [] in
        let few = omega_few in
        let (older, e) = trim-middle nonce r.at r.older newer few.0 in
        record { older = older; at = r.at; newer = newer; split = regroup ∙ e; few = few.1 })
  ]
    where
      omega_few :
          (length (r.newer ++ (m, now) ∷ []) < nonce_memory)
          × (length (r.newer ++ (m, now) ∷ []) < suc k)
      omega_few = (
        omega (arith, length-append r.newer ((m, now) ∷ []), r.few),
        omega (arith, length-append r.newer ((m, now) ∷ []), r.few),
      )

      regroup :
          trim (seen ++ (m, now) ∷ [])
          ≡ trim (r.older ++ (nonce, r.at) ∷ (r.newer ++ (m, now) ∷ []))
      regroup =
          ap (λ (z : List (String × N)). trim (z ++ (m, now) ∷ [])) r.split
          ∙ ap trim (append_assoc r.older ((nonce, r.at) ∷ r.newer) ((m, now) ∷ []))

  unfoldable pub remember_all : List (N × String) → List (String × N) → List (String × N)
  remember_all [] seen = seen
  remember_all ((now, m) ∷ rest) seen = remember_all rest (remember_nonce now m seen).0

  remember_all-has_nonce :
      (nonce : String) (k : ℕ) (later : List (N × String)) (seen : List (String × N))
      → k + length later ≤ nonce_memory
      → IsRecent nonce k seen
      → has_nonce nonce (remember_all later seen) ≡ true
  unfolding remember_all
  remember_all-has_nonce nonce k [] seen h r =
      rw r.split (has_nonce-middle nonce r.at r.older r.newer)
  remember_all-has_nonce nonce k ((now, m) ∷ rest) seen h r =
      remember_all-has_nonce nonce (suc k) rest _ (omega arith)
        (IsRecent-remember_nonce now m nonce k seen (omega arith) r)

  remember_nonce-IsRecent :
      (now : N) (nonce : String) (seen : List (String × N))
      → (remember_nonce now nonce seen).1 ≡ true
      → IsRecent nonce 1 (remember_nonce now nonce seen).0
  unfolding remember_nonce
  remember_nonce-IsRecent now nonce seen h = elim (Bool-cases (has_nonce nonce seen)) [
    | inl old ↦ cc (rw old at h)
    | inr new ↦ rw new (
        let (older, e) = trim-middle nonce now seen [] (omega arith) in
        record { older = older; at = now; newer = []; split = e; few = omega arith })
  ]

  pub has_nonce-remember_nonce :
      (now : N) (nonce : String) (seen : List (String × N))
      → has_nonce nonce seen ≡ false
      → has_nonce nonce (remember_nonce now nonce seen).0 ≡ true
  unfolding remember_nonce remember_all
  has_nonce-remember_nonce now nonce seen new =
      remember_all-has_nonce nonce 1 [] (remember_nonce now nonce seen).0 (omega arith)
        (remember_nonce-IsRecent now nonce seen (rw new))

  -- A nonce that was accepted is refused again as long as at most 499 calls for other or the same
  -- nonces came between; the refusal leaves the memory as it is.
  pub replay_refused :
      (t now : N) (nonce : String) (seen : List (String × N)) (later : List (N × String))
      → (remember_nonce t nonce seen).1 ≡ true
      → length later < nonce_memory
      → let seen' = remember_all later (remember_nonce t nonce seen).0 in
        remember_nonce now nonce seen' ≡ (seen', false)
  unfolding remember_nonce
  replay_refused t now nonce seen later fresh few = rw (
      remember_all-has_nonce nonce 1 later (remember_nonce t nonce seen).0 (omega arith)
        (remember_nonce-IsRecent t nonce seen fresh))
