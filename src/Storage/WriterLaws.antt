-- ===== src/Storage/WriterLaws.antt =====
-- src/storage/writer.rs: the writer as one sequence of statements.
use arbstr.Prelude.{
  ℕ, suc, ◌+◌, ◌≤◌, ◌≡◌, refl, sym, ap, ◌∙◌, Bool, List, [], ◌∷◌, ◌++◌, length, length-append, ltb,
  arith, if◌then◌else◌, Bool-cases, inl, inr,
}
use mathlib.Core.List.{append_assoc, append-nil}
use arbstr.Storage.Table.{Table}
use arbstr.Storage.Writer.{
  WriteCommand, WriterState, WriterEvent, sends, receives, execute, try_send, writer_step,
  writer_run,
}

module _ {C : Type 0} (capacity : ℕ) (works : ℕ → Bool) where
  -- The commands that the channel takes, in their order: those that find it not full.
  abbrev pub accepted : List (WriterEvent C) → WriterState C → List (WriteCommand C)
  accepted [] w = []
  accepted (receives ∷ es) w = accepted es (writer_step capacity works receives w)
  accepted (sends c ∷ es) w =
      let rest = accepted es (writer_step capacity works (sends c) w) in
      if ltb (length w.queue) capacity then c ∷ rest else rest

  -- The statements of commands, one after the other, from the `n`-th.
  abbrev pub execute_all : ℕ → List (WriteCommand C) → Table C → Table C
  execute_all n [] t = t
  execute_all n (c ∷ cs) t = execute_all (suc n) cs (execute (works n) c t)

  -- What is still to be done for a state is to execute its queue.
  abbrev pub drained : WriterState C → Table C
  drained w = execute_all w.made w.queue w.table

  abbrev pub state : List (WriteCommand C) → Table C → ℕ → WriterState C
  state q t n = record { queue = q; table = t; made = n }

  receive-bounded :
      (q : List (WriteCommand C)) (t : Table C) (n : ℕ)
      → length q ≤ capacity
      → length (writer_step capacity works receives (state q t n)).queue ≤ capacity
  unfolding writer_step
  receive-bounded [] t n h = h
  receive-bounded (c ∷ q) t n h = omega (arith, h)

  step-bounded :
      (e : WriterEvent C) (w : WriterState C)
      → length w.queue ≤ capacity
      → length (writer_step capacity works e w).queue ≤ capacity
  unfolding writer_step
  step-bounded (sends c) w h = ground (arith, length-append w.queue (c ∷ []))
  step-bounded receives w h = receive-bounded w.queue w.table w.made h

  execute_all-append :
      (n : ℕ) (xs ys : List (WriteCommand C)) (t : Table C)
      → execute_all n (xs ++ ys) t ≡ execute_all (n + length xs) ys (execute_all n xs t)
  execute_all-append n [] ys t = ap (λ k. execute_all k ys t) (omega arith)
  execute_all-append n (x ∷ xs) ys t =
      execute_all-append (suc n) xs ys (execute (works n) x t)
      ∙ ap (λ k. execute_all k ys (execute_all (suc n) xs (execute (works n) x t))) (omega arith)

  -- What a state still makes of the commands that come after it.
  abbrev pub finished : WriterState C → List (WriteCommand C) → Table C
  finished w later = execute_all w.made (w.queue ++ later) w.table

  receive-finished :
      (q later : List (WriteCommand C)) (t : Table C) (n : ℕ)
      → finished (writer_step capacity works receives (state q t n)) later
        ≡ finished (state q t n) later
  unfolding writer_step
  receive-finished [] later t n = refl
  receive-finished (c ∷ q) later t n = refl

  send-finished :
      (c : WriteCommand C) (w : WriterState C) (more later : List (WriteCommand C))
      → finished (writer_step capacity works (sends c) w) (more ++ later)
        ≡ finished w ((if ltb (length w.queue) capacity then c ∷ more else more) ++ later)
  unfolding writer_step try_send
  send-finished c w more later = elim (Bool-cases (ltb (length w.queue) capacity)) [
    | inl e ↦
        rw (e, try_send)
          (ap (λ q. execute_all w.made q w.table) (append_assoc w.queue (c ∷ []) (more ++ later)))
    | inr e ↦ rw (e, try_send) refl
  ]

  run-finished :
      (es : List (WriterEvent C)) (w : WriterState C) (later : List (WriteCommand C))
      → finished (writer_run capacity works es w) later ≡ finished w (accepted es w ++ later)
  unfolding writer_run
  run-finished [] w later = refl
  run-finished (receives ∷ es) w later =
      run-finished es (writer_step capacity works receives w) later
      ∙ receive-finished w.queue _ w.table w.made
  run-finished (sends c ∷ es) w later =
      run-finished es (writer_step capacity works (sends c) w) later
      ∙ send-finished c w (accepted es (writer_step capacity works (sends c) w)) later

  run-bounded :
      (es : List (WriterEvent C)) (w : WriterState C)
      → length w.queue ≤ capacity
      → length (writer_run capacity works es w).queue ≤ capacity
  unfolding writer_run
  run-bounded [] w h = h
  run-bounded (e ∷ es) w h = run-bounded es (writer_step capacity works e w) (step-bounded e w h)

  -- From an empty queue, for any interleaving of the handlers and the task: the queue is never
  -- longer than the capacity, and once the task has emptied it, the table is what the commands that
  -- the channel took make of it, one after the other in their order.
  pub writer_run-accepted :
      (es : List (WriterEvent C)) (t : Table C)
      → let w = writer_run capacity works es (state [] t 0) in
        (length w.queue ≤ capacity)
        × (w.queue ≡ [] → w.table ≡ execute_all 0 (accepted es (state [] t 0)) t)
  writer_run-accepted es t =
      let w = writer_run capacity works es (state [] t 0) in
      (
        run-bounded es (state [] t 0) (omega arith),
        λ empty.
            ap (λ q. execute_all w.made q w.table) (sym (ap (λ q. q ++ []) empty))
            ∙ (run-finished es (state [] t 0) []
                ∙ ap (λ q. execute_all 0 q t) (append-nil (accepted es (state [] t 0)))),
      )
