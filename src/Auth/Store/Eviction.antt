-- ===== src/Auth/Store/Eviction.antt =====
-- The counts that EvictAll reports.
use goblin_ftp.Base.{
  ℕ, ◌+◌, ◌≤◌, ◌≡◌, refl, true, List, [], ◌∷◌, Bytes, ltb, length, arith, Bool-cases, inl, inr,
}
use goblin_ftp.Base.Map.{Map}
use goblin_ftp.Auth.Session.{Session}
use goblin_ftp.Auth.Store.{Store}
use goblin_ftp.Auth.Store.Sweep.{
  Turn, Counts, no_counts, victims, evict_one, evict_loop, evict, evict_all,
}

abbrev pub all_counted : Counts → ℕ
all_counted n = n.clean + n.forced + n.abandoned

length-victims :
    (objects : ℕ → Session) (now : ℕ) (m : Map Bytes ℕ)
    → length (victims objects true now m) ≡ length m
unfolding victims
length-victims objects now [] = refl
length-victims objects now ((id, p) ∷ m) = omega (arith, length-victims objects now m)

module _ (on_evict : Session → Session) (deadline : ℕ) where
  evict_one-counts :
      (s : Store) (p : ℕ) (turn : Turn) (n : Counts)
      → all_counted (evict_one on_evict deadline true s p turn n).1 ≡ all_counted n + 1
  unfolding evict_one
  evict_one-counts s p turn n = ground arith

  evict_loop-counts :
      (s : Store) (ps : List ℕ) (turns : List Turn) (n : Counts)
      → length ps ≤ length turns
      → all_counted (evict_loop on_evict deadline true s ps turns n).1 ≡ all_counted n + length ps
  unfolding evict_loop
  evict_loop-counts s [] turns n h = omega arith
  evict_loop-counts s (p ∷ ps) [] n h = absurd (omega (arith, h))
  evict_loop-counts s (p ∷ ps) (turn ∷ turns) n h =
      elim (Bool-cases (ltb deadline turn.checked_at)) [
        | inl t ↦ rw t (omega arith)
        | inr f ↦ rw f (
            omega (
              arith,
              evict_one-counts s p turn n,
              evict_loop-counts (evict_one on_evict deadline true s p turn n).0 ps turns
                  (evict_one on_evict deadline true s p turn n).1 (omega (arith, h)),
            ))
      ]

  -- Given the readings of clock and lock for as many rounds as there are sessions, EvictAll counts
  -- every session exactly once, as clean, forced or abandoned, whatever these readings are.
  pub evict_all_counts :
      (s : Store) (now : ℕ) (turns : List Turn)
      → length s.sessions ≤ length turns
      → all_counted (evict_all on_evict deadline s now turns).1 ≡ length s.sessions
  unfolding evict_all evict
  evict_all_counts s now turns h =
      let same = length-victims s.objects now s.sessions in
      omega (
        arith,
        same,
        evict_loop-counts s (victims s.objects true now s.sessions) turns no_counts
            (omega (arith, same, h)),
      )
