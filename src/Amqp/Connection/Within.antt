-- ===== src/Amqp/Connection/Within.antt =====
-- What a call of the client library may leave open.
use mathlib.Core.Path.{subst}
use notify_stream.Prelude.{
  ℕ, true, not, ◌&&◌, ◌≡◌, ◌≢◌, ◌==◌, ==_iff, refl, sym, ap, inl, inr, Bool-cases, Option, none,
  some, List, [], ◌∷◌, IsIn, All, arith,
}
use notify_stream.Prelude.Sort.{filter}
use notify_stream.Prelude.Sort.All.{All-filter, All-filter_both, All-map}
use notify_stream.Amqp.Connection.{
  Call, Net, contains, close_conns, close_chan, next, call, dial, open_chan, drop_chan, drop_conn,
  calls,
}

-- Every connection is one of `ks`, every channel one of `hs`, and its connection is open.
pub record Within (ks : List ℕ) (hs : List (ℕ × ℕ)) (n : Net) : Type 0 where
  pub conns : All (λ k. IsIn k ks) n.conns
  pub chans : All (λ h. IsIn h hs × (contains h.0 n.conns ≡ true)) n.chans

contains-filter :
    (k : ℕ) (ks ms : List ℕ)
    → contains k ms ≡ true
    → not (contains k ks) ≡ true
    → contains k (filter (λ c. not (contains c ks)) ms) ≡ true
unfolding filter
contains-filter k ks [] h f = h
contains-filter k ks (m ∷ ms) h f = elim (Bool-cases (m == k)) [
  | inl here ↦
      let same : m ≡ k = (==_iff m k).0 here in
      let kept : not (contains m ks) ≡ true =
        subst (λ c. not (contains c ks) ≡ true) (sym same) f in
      rw (kept, here) refl
  | inr there ↦ elim (Bool-cases (not (contains m ks))) [
    | inl kept ↦ rw (kept, there) (contains-filter k ks ms (rw there at h) f)
    | inr gone ↦ rw gone (contains-filter k ks ms (rw there at h) f)
  ]
]

close_conns-Within :
    (gone ks : List ℕ) (hs : List (ℕ × ℕ)) (n : Net)
    → Within ks hs n
    → Within ks hs (close_conns gone n)
unfolding close_conns
close_conns-Within gone ks hs n w = record {
  conns = All-filter (λ k. IsIn k ks) (λ c. not (contains c gone)) n.conns w.conns;
  chans =
      All-filter_both (λ h. IsIn h hs × (contains h.0 n.conns ≡ true))
        (λ h. IsIn h hs × (contains h.0 (filter (λ c. not (contains c gone)) n.conns) ≡ true))
        (λ h. not (contains h.0 gone)) n.chans
        (λ h (i, c) f. (i, contains-filter h.0 gone n.conns c f)) w.chans;
}

-- A connection that is closed is open no more.
drop_first :
    (k : ℕ) (ks : List ℕ) (ms : List ℕ)
    → All (λ m. IsIn m (k ∷ ks)) ms
    → All (λ m. IsIn m ks) (filter (λ c. not (contains c (k ∷ []))) ms)
drop_first k ks ms h =
    All-filter_both (λ m. IsIn m (k ∷ ks)) (λ m. IsIn m ks) (λ c. not (contains c (k ∷ []))) ms
      (λ m i f. elim i [ inl e ↦ absurd (ground arith) | inr j ↦ j ]) h

drop_first_chan :
    (k c : ℕ) (hs ns : List (ℕ × ℕ)) (ms : List ℕ)
    → All (λ h. IsIn h ((k, c) ∷ hs) × (contains h.0 ms ≡ true)) ns
    → All (λ h. IsIn h hs × (contains h.0 ms ≡ true)) (filter (λ h. not (h.0 == k && h.1 == c)) ns)
drop_first_chan k c hs ns ms w =
    All-filter_both (λ h. IsIn h ((k, c) ∷ hs) × (contains h.0 ms ≡ true))
      (λ h. IsIn h hs × (contains h.0 ms ≡ true)) (λ h. not (h.0 == k && h.1 == c)) ns
      (λ h (i, o) f. elim i [
        | inl e ↦ absurd (let e0 = ap (λ u. u.0) e in let e1 = ap (λ u. u.1) e in ground arith)
        | inr j ↦ (j, o)
      ])
      w

-- Nothing that is open is no more than anything.
pub weaken : (ks : List ℕ) (hs : List (ℕ × ℕ)) (n : Net) → Within [] [] n → Within ks hs n
weaken ks hs n w = record {
  conns = All-map (λ k. IsIn k []) (λ k. IsIn k ks) n.conns (λ k i. absurd i) w.conns;
  chans =
      All-map (λ h. IsIn h [] × (contains h.0 n.conns ≡ true))
        (λ h. IsIn h hs × (contains h.0 n.conns ≡ true)) n.chans (λ h (i, o). absurd i) w.chans;
}

closed : (k : ℕ) (ms : List ℕ) → All (λ m. IsIn m []) ms → contains k ms ≢ true
closed k [] h e = cc
closed k (m ∷ ms) (i, h) e = absurd i

-- Without a connection there is no channel.
pub none_open : (hs : List (ℕ × ℕ)) (n : Net) → Within [] hs n → Within [] [] n
none_open hs n w = record {
  conns = w.conns;
  chans =
      All-map (λ h. IsIn h hs × (contains h.0 n.conns ≡ true))
        (λ h. IsIn h [] × (contains h.0 n.conns ≡ true)) n.chans
        (λ h (i, o). absurd (closed h.0 n.conns w.conns o)) w.chans;
}

module _ (env : ℕ → Call) where
  pub next-Within :
      (ks : List ℕ) (hs : List (ℕ × ℕ)) (n : Net) → Within ks hs n → Within ks hs (next env n)
  unfolding next
  next-Within ks hs n w =
      let w' = close_conns-Within (env n.tick).lost ks hs n w in
      record { conns = w'.conns; chans = w'.chans }

  pub drop_conn-Within :
      (k : ℕ) (n : Net) → Within (k ∷ []) [] n → Within [] [] (drop_conn env k n).1
  unfolding drop_conn close_conns
  drop_conn-Within k n w =
      let w' = next-Within (k ∷ []) [] n w in
      let w'' = close_conns-Within (k ∷ []) (k ∷ []) [] (next env n) w' in
      record { conns = drop_first k [] (next env n).conns w'.conns; chans = w''.chans }

  pub drop_chan-Within :
      (h : ℕ × ℕ) (ks : List ℕ) (hs : List (ℕ × ℕ)) (n : Net)
      → Within ks (h ∷ hs) n
      → Within ks hs (drop_chan env h n).1
  unfolding drop_chan close_chan
  drop_chan-Within (k, c) ks hs n w =
      let w' = next-Within ks ((k, c) ∷ hs) n w in
      record {
        conns = w'.conns;
        chans = drop_first_chan k c hs (next env n).chans (next env n).conns w'.chans;
      }

  pub calls-Within :
      {A : Type 0} (xs : List A) (ks : List ℕ) (hs : List (ℕ × ℕ)) (n : Net)
      → Within ks hs n
      → Within ks hs (calls env xs n).1
  unfolding calls call
  calls-Within [] ks hs n w = w
  calls-Within (a ∷ more) ks hs n w =
      let w' = next-Within ks hs n w in
      elim (Bool-cases (env n.tick).works) [
        | inl on ↦ rw on (calls-Within more ks hs (next env n) w')
        | inr off ↦ rw off w'
      ]

  abbrev pub IsDialled : Option ℕ → Net → Type 0
  IsDialled none n = Within [] [] n
  IsDialled (some k) n = Within (k ∷ []) [] n

  pub dial-IsDialled : (n : Net) → Within [] [] n → IsDialled (dial env n).0 (dial env n).1
  unfolding dial
  dial-IsDialled n w =
      let w' = next-Within [] [] n w in
      elim (Bool-cases (env n.tick).works) [
        | inl on ↦ rw on (record {
          conns = (
            inl refl,
            All-map (λ m. IsIn m []) (λ m. IsIn m ((env n.tick).made ∷ [])) (next env n).conns
                (λ m i. absurd i) w'.conns,
          );
          chans =
              All-map (λ h. IsIn h [] × (contains h.0 (next env n).conns ≡ true))
                (λ h. IsIn h [] × (contains h.0 ((env n.tick).made ∷ (next env n).conns) ≡ true))
                (next env n).chans (λ h (i, o). absurd i) w'.chans;
        })
        | inr off ↦ rw off w'
      ]

  abbrev pub IsOpened : List ℕ → List (ℕ × ℕ) → Option (ℕ × ℕ) → Net → Type 0
  IsOpened ks hs none n = Within ks hs n
  IsOpened ks hs (some h) n = Within ks (h ∷ hs) n

  pub open_chan-IsOpened :
      (k : ℕ) (ks : List ℕ) (hs : List (ℕ × ℕ)) (n : Net)
      → Within ks hs n
      → IsOpened ks hs (open_chan env k n).0 (open_chan env k n).1
  unfolding open_chan
  open_chan-IsOpened k ks hs n w =
      let w' = next-Within ks hs n w in
      elim (Bool-cases ((env n.tick).works && contains k (next env n).conns)) [
        | inl on ↦
            let here : contains k (next env n).conns ≡ true = ground arith in
            rw on (record {
              conns = w'.conns;
              chans = (
                (inl refl, here),
                All-map (λ h. IsIn h hs × (contains h.0 (next env n).conns ≡ true))
                    (λ h.
                      IsIn h ((k, (env n.tick).made) ∷ hs)
                      × (contains h.0 (next env n).conns ≡ true))
                    (next env n).chans (λ h (i, o). (inr i, o)) w'.chans,
              );
            })
        | inr off ↦ rw off w'
      ]
