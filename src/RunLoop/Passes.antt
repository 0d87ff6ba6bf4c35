-- ===== src/RunLoop/Passes.antt =====
-- The loop of `io_context::run` over the completions that are ready.
use mathlib.Core.Path.{subst}
use fiona.Base.{
  ℕ, suc, ◌+◌, ◌≤◌, ◌≡◌, refl, ap, Option, none, some, List, [], ◌∷◌, arith, to_int, drop, length,
  is_some,
}
use fiona.RunLoop.{
  Completion, Context, Outcome, returned, raised, Program, Batch, step, push, batch,
}
use fiona.RunLoop.Steps.{Accounts, Keeps, context, step-Accounts}

module _ {S : Type 0} where
  -- The completions that the loop has worked on, that of an exception included.
  abbrev pub worked : Batch S → ℕ
  worked b = b.advanced + to_int (is_some b.thrown)

  -- What a loop over the completions leaves.
  pub record Passed (owed : S → ℕ → ℕ) (xs : List Completion) (b : Batch S) : Type 0 where
    pub accounts : Accounts owed (drop (worked b) xs) b.context
    pub within : worked b ≤ length xs
    pub all : b.thrown ≡ none → b.advanced ≡ length xs
    pub fits : length b.handles ≤ b.advanced

module _ {S : Type 0} (owed : S → ℕ → ℕ) (p : Program S) (k : Keeps owed p) where
  push-Passed :
      (y : Completion) (xs : List Completion) (h : Option ℕ) (b : Batch S)
      → Passed owed xs b
      → Passed owed (y ∷ xs) (push h b)
  push-Passed y xs none b w = record {
    accounts =
        let e : suc (worked b) ≡ suc b.advanced + to_int (is_some b.thrown) = omega arith in
        subst (λ n. Accounts owed (drop n (y ∷ xs)) b.context) e w.accounts;
    within = omega (arith, w.within);
    all = λ e. ap suc (w.all e);
    fits = omega (arith, w.fits);
  }
  push-Passed y xs (some h) b w = record {
    accounts =
        let e : suc (worked b) ≡ suc b.advanced + to_int (is_some b.thrown) = omega arith in
        subst (λ n. Accounts owed (drop n (y ∷ xs)) b.context) e w.accounts;
    within = omega (arith, w.within);
    all = λ e. ap suc (w.all e);
    fits = omega (arith, w.fits);
  }

  -- Where the use counts account for the completions that are ready and each frame keeps count of the
  -- references that it adds and drops, the loop over them does not fail: it works on them in order up
  -- to the first that throws, on all of them where none does, it releases each frame once for each
  -- completion worked on, that of an exception included, it counts those that did not throw, and it
  -- writes no more handles than it counts completions.
  pub batch-Passed :
      (xs : List Completion) (c : Context S)
      → Accounts owed xs c
      → (b : Batch S) × (batch p xs c ≡ some b) × Passed owed xs b
  unfolding batch
  batch-Passed [] c a = (
    record { context = c; handles = []; advanced = 0; thrown = none },
    refl,
    record { accounts = a; within = omega arith; all = λ e. refl; fits = omega arith },
  )
  batch-Passed (y ∷ xs) c a =
      let (o, e, a') = step-Accounts owed p y xs c k a in go (λ c' w. batch-Passed xs c' w) o e a'
    where
      go :
          ((c' : Context S)
            → Accounts owed xs c'
            → (b : Batch S) × (batch p xs c' ≡ some b) × Passed owed xs b)
          → (o : Outcome S (Option ℕ)) → step p y c ≡ some o
          → Accounts owed xs (context o)
          → (b : Batch S) × (batch p (y ∷ xs) c ≡ some b) × Passed owed (y ∷ xs) b
      go rest (returned h c') e a' =
          let (b, f, w) = rest c' a' in (push h b, rw (e, f) refl, push-Passed y xs h b w)
      go rest (raised t c') e a' = (
        record { context = c'; handles = []; advanced = 0; thrown = some t },
        rw (e) refl,
        record { accounts = a'; within = omega arith; all = λ n. cc; fits = omega arith },
      )
