-- ===== src/Dma/Transfers/Correct.antt =====
-- The list that `list_transfers` builds, and what freeing it gives back.
use cheritest.Common.{
  ℕ, zero, suc, ◌+◌, ◌≤◌, ◌<◌, ◌≡◌, refl, ap, ◌∙◌, Option, none, some, Option-cases, ◌⊎◌, inl, inr,
  List, [], ◌∷◌, ◌++◌, length, length-append, Run, ok, arith, Bool, true, false, ltb, leb, ◌&&◌,
  ◌==◌, if◌then◌else◌,
}
use mathlib.Core.List.{append-nil, append_assoc}
use native.Mathlib.Nat.{add-zero}
use cheritest.Dma.Transfers.{
  Transfer, MachineState, dmam_running, dmam_stopped, Thread, Execute, Link, null, to, Heap,
  record_transfer, record_all, follow, list_loop, first_thread, list_transfers, free_transfer_list,
  malloc, put,
}

-- From cell `p` the pointers lead through consecutive cells, which hold the transfers in order.
abbrev pub Chain : Heap → ℕ → List Transfer → Type 0
Chain h p [] = (h.cell p).next ≡ null
Chain h p (t ∷ ts) =
    ((h.cell p).next ≡ to (suc p)) × ((h.cell (suc p)).item ≡ some t) × Chain h (suc p) ts

-- The heap after a call of the callback, if `tail` is live.
abbrev linked : (tail : ℕ) → Heap → Heap
linked tail h = put tail (record ((malloc h).cell tail) { next = to h.used }) (malloc h)

abbrev filled : (tail : ℕ) → Transfer → Heap → Heap
filled tail t h =
    put h.used (record ((linked tail h).cell h.used) { item = some t }) (linked tail h)

abbrev recorded : (tail : ℕ) → Transfer → Heap → Heap
recorded tail t h =
    put h.used (record ((filled tail t h).cell h.used) { next = null }) (filled tail t h)

record_transfer-recorded :
    (t : Transfer) (h : Heap) (tail : ℕ)
    → h.live tail ≡ true
    → record_transfer tail t h ≡ ok (recorded tail t h)
unfolding record_transfer
record_transfer-recorded t h tail alive =
    let tail_live : (malloc h).live tail ≡ true = ground arith in
    let new_live : (malloc h).live h.used ≡ true = ground arith in
    rw (tail_live, new_live, new_live)

Chain-recorded :
    (t : Transfer) (h : Heap) (p tail : ℕ) (ts : List Transfer)
    → Chain h p ts
    → tail ≡ p + length ts
    → h.used ≡ suc tail
    → Chain (recorded tail t h) p (ts ++ t ∷ [])
Chain-recorded t h p tail [] c e u = (ground arith, ground arith, ground arith)
Chain-recorded t h p tail (x ∷ ts) c e u =
    (ground arith, ground arith, Chain-recorded t h (suc p) tail ts c.2 (omega arith) u)

-- The live cells: those from `lo` up to `hi`, and `base` says which of the others.
abbrev pub Alive : (lo hi : ℕ) → (base : ℕ → Bool) → Heap → Type 0
Alive lo hi base h = (q : ℕ) → h.live q ≡ (if leb lo q && ltb q hi then true else base q)

-- The list is the transfers of the run in order, one to a cell, it ends by NULL, its cells are live,
-- the false head is freed, and the other cells are as they were.
pub record IsList (ts : List Transfer) (h : Heap) (l : Link) (h' : Heap) : Type 0 where
  pub head : l ≡ (h'.cell h.used).next
  pub chain : Chain h' h.used ts
  pub used : h'.used ≡ suc (h.used + length ts)
  pub live : Alive (suc h.used) h'.used (λ q. if h.used == q then false else h.live q) h'

Chain-live :
    (p : ℕ) (ts : List Transfer) (h : Heap) (l : ℕ → Bool)
    → Chain h p ts
    → Chain (record h { live = l }) p ts
Chain-live p [] h l c = c
Chain-live p (t ∷ ts) h l c = (c.0, c.1, Chain-live (suc p) ts h l c.2)

-- The transfers that the instructions record until the thread stops, if it does within the fuel.
unfoldable pub transfers_of : Execute → (fuel : ℕ) → Thread → Option (List Transfer)
transfers_of execute zero th = none
transfers_of execute (suc fuel) th = elim th.dmat_state [
  | dmam_stopped ↦ some []
  | dmam_running ↦
      let (th', ts) = execute th in
      elim (transfers_of execute fuel th') [ none ↦ none | some us ↦ some (ts ++ us) ]
]

State-cases : (s : MachineState) → (s ≡ dmam_running) ⊎ (s ≡ dmam_stopped)
State-cases dmam_running = inl refl
State-cases dmam_stopped = inr refl

module _ (execute : Execute) (single : (th : Thread) → length (execute th).1 ≤ 1) where
  -- What the loop leaves, from a heap whose last cell ends the list so far.
  record Listed (head : ℕ) (base : ℕ → Bool) (ts : List Transfer) (r : Run Heap) : Type 0 where
    final : Heap
    runs : r ≡ ok final
    chain : Chain final head ts
    used : final.used ≡ suc (head + length ts)
    live : Alive head final.used base final

  list_loop_stops :
      (fuel tail : ℕ) (th : Thread) (h : Heap)
      → th.dmat_state ≡ dmam_stopped
      → list_loop execute (suc fuel) th tail h ≡ ok h
  unfolding list_loop
  list_loop_stops fuel tail th h e = rw e

  list_loop_goes :
      (fuel tail tail' : ℕ) (th : Thread) (h h' : Heap)
      → th.dmat_state ≡ dmam_running
      → record_all tail (execute th).1 h ≡ ok h'
      → h'.live tail ≡ true
      → follow tail (h'.cell tail).next ≡ ok tail'
      → list_loop execute (suc fuel) th tail h ≡ list_loop execute fuel (execute th).0 tail' h'
  unfolding list_loop
  list_loop_goes fuel tail tail' th h h' e r l f = ground (arith, e, r, l, f)

  -- The transfers of a run that goes on are those of its instruction and those of the rest.
  transfers_of_goes :
      (fuel : ℕ) (th : Thread) (us : List Transfer)
      → th.dmat_state ≡ dmam_running
      → transfers_of execute (suc fuel) th ≡ some us
      → (vs : List Transfer) × (transfers_of execute fuel (execute th).0 ≡ some vs)
        × ((execute th).1 ++ vs ≡ us)
  unfolding transfers_of
  transfers_of_goes fuel th us e r =
      elim (Option-cases (transfers_of execute fuel (execute th).0)) [
        | inl none_left ↦ absurd (ground arith)
        | inr (vs, more) ↦ (vs, more, ground arith)
      ]

  -- One instruction's calls: none, or one, which puts a cell behind the last.
  record Recorded (head tail : ℕ) (base : ℕ → Bool) (ts vs : List Transfer) (h : Heap)
      : Type 0 where
    tail' : ℕ
    h' : Heap
    runs : record_all tail vs h ≡ ok h'
    goes : follow tail (h'.cell tail).next ≡ ok tail'
    chain : Chain h' head (ts ++ vs)
    at_end : tail' ≡ head + length (ts ++ vs)
    used : h'.used ≡ suc tail'
    live : Alive head h'.used base h'

  Chain-end :
      (h : Heap) (p tail : ℕ) (ts : List Transfer)
      → Chain h p ts
      → tail ≡ p + length ts
      → (h.cell tail).next ≡ null
  Chain-end h p tail [] c e = rw e (rw add-zero c)
  Chain-end h p tail (t ∷ ts) c e = Chain-end h (suc p) tail ts c.2 (omega arith)

  record_all-Recorded :
      (head tail : ℕ) (base : ℕ → Bool) (ts vs : List Transfer) (h : Heap)
      → length vs ≤ 1
      → Chain h head ts
      → tail ≡ head + length ts
      → h.used ≡ suc tail
      → Alive head h.used base h
      → Recorded head tail base ts vs h
  unfolding record_all follow
  record_all-Recorded head tail base ts [] h one c e u alive = record {
    tail' = tail;
    h' = h;
    runs = refl;
    goes = rw (Chain-end h head tail ts c e);
    chain = rw append-nil c;
    at_end = rw append-nil e;
    used = u;
    live = alive;
  }
  record_all-Recorded head tail base ts (v ∷ []) h one c e u alive = record {
    tail' = h.used;
    h' = recorded tail v h;
    runs = rw (record_transfer-recorded v h tail (ground (arith, alive tail)));
    goes = ground arith;
    chain = Chain-recorded v h head tail ts c e u;
    at_end = omega (arith, length-append ts (v ∷ []));
    used = omega arith;
    live = λ q. ground (arith, alive q);
  }
  record_all-Recorded head tail base ts (v ∷ w ∷ vs) h one c e u alive = absurd (omega arith)

  list_loop-Listed :
      (fuel head tail : ℕ) (base : ℕ → Bool) (th : Thread) (h : Heap) (ts us : List Transfer)
      → transfers_of execute fuel th ≡ some us
      → Chain h head ts
      → tail ≡ head + length ts
      → h.used ≡ suc tail
      → Alive head h.used base h
      → Listed head base (ts ++ us) (list_loop execute fuel th tail h)
  unfolding transfers_of
  list_loop-Listed zero head tail base th h ts us e c at_end u alive = absurd (cc)
  list_loop-Listed (suc fuel) head tail base th h ts us e c at_end u alive =
      elim (State-cases th.dmat_state) [
        | inr stopped ↦
            let empty : [] ≡ us = ground arith in
            rw (← empty, append-nil, list_loop_stops fuel tail th h stopped)
              (record { final = h; runs = refl; chain = c; used = omega arith; live = alive })
        | inl running ↦
            let (vs, more, parts) = transfers_of_goes fuel th us running e in
            let r =
              record_all-Recorded head tail base ts (execute th).1 h (single th) c at_end u alive in
            let rest =
              list_loop-Listed fuel head r.tail' base (execute th).0 r.h' (ts ++ (execute th).1) vs
                more r.chain r.at_end r.used r.live in
            rw
              (
                list_loop_goes fuel tail r.tail' th h r.h' running r.runs
                    (ground (arith, r.live tail, r.used, r.at_end, length-append ts (execute th).1))
                    r.goes,
                ← parts,
                ← append_assoc,
              )
              rest
      ]

  -- The heap with the false head, which ends the list.
  abbrev start : Heap → Heap
  start h = put h.used (record ((malloc h).cell h.used) { next = null }) (malloc h)

  list_transfers_runs :
      (fuel program : ℕ) (h f : Heap)
      → list_loop execute fuel (first_thread execute program) h.used (start h) ≡ ok f
      → f.live h.used ≡ true
      → list_transfers execute fuel program h
        ≡ ok
            ((f.cell h.used).next, record f { live = λ q. if h.used == q then false else f.live q })
  unfolding list_transfers
  list_transfers_runs fuel program h f runs alive =
      let new_live : (malloc h).live h.used ≡ true = ground arith in rw (new_live, runs, alive)

  -- From any heap, if each instruction records one transfer at most and the program stops within the
  -- fuel, `list_transfers` returns the list of the run's transfers, in order and with none lost. It
  -- uses no cell that is not live, has freed the false head, and leaves the cells of the list live
  -- and the others as they were.
  pub list_transfers-IsList :
      (fuel program : ℕ) (h : Heap) (ts : List Transfer)
      → transfers_of execute fuel (first_thread execute program) ≡ some ts
      → (l : Link) × (h' : Heap) × (list_transfers execute fuel program h ≡ ok (l, h'))
        × IsList ts h l h'
  list_transfers-IsList fuel program h ts e =
      let r =
        list_loop-Listed fuel h.used h.used h.live (first_thread execute program) (start h) [] ts e
          (ground arith) (omega arith) (omega arith) (λ q. ground arith) in
      let head_live : r.final.live h.used ≡ true = ground (arith, r.live h.used, r.used) in
      let after : Heap = record r.final {
        live = λ q. if h.used == q then false else r.final.live q;
      } in
      (
        (r.final.cell h.used).next,
        after,
        list_transfers_runs fuel program h r.final r.runs head_live,
        record {
          head = refl;
          chain = Chain-live h.used ts r.final after.live r.chain;
          used = r.used;
          live = λ q. ground (arith, r.live q);
        },
      )

free-Chain :
    (fuel p : ℕ) (ts : List Transfer) (h : Heap) (base : ℕ → Bool)
    → Chain h p ts
    → Alive (suc p) (suc p + length ts) base h
    → length ts < fuel
    → (h' : Heap) × (free_transfer_list fuel (h.cell p).next h ≡ ok h')
      × (h'.used ≡ h.used)
      × (h'.cell ≡ h.cell)
      × ((q : ℕ)
          → h'.live q ≡ (if leb (suc p) q && ltb q (suc p + length ts) then false else base q))
unfolding free_transfer_list
free-Chain zero p ts h base c alive room = absurd (omega arith)
free-Chain (suc fuel) p [] h base c alive room = (h, rw c, refl, refl, λ q. ground (arith, alive q))
free-Chain (suc fuel) p (t ∷ ts) h base c alive room =
    let here : h.live (suc p) ≡ true = ground (arith, alive (suc p)) in
    let h1 : Heap = record h { live = λ q. if suc p == q then false else h.live q } in
    let (h', runs, used, cell, live) =
      free-Chain fuel (suc p) ts h1 (λ q. if suc p == q then false else base q)
        (Chain-live (suc p) ts h h1.live c.2) (λ q. ground (arith, alive q)) (omega arith) in
    (h', rw (c.0, free_transfer_list, here) runs, used, cell, λ q. ground (arith, live q))

-- Freeing the list of a run, after `list_transfers` has freed its false head, reads and frees each
-- of its cells while it is live, so none twice and none after it is freed. At the end the cells that
-- were taken from the heap for it are free again and the others are live as before it was built.
pub free_transfer_list-IsList :
    (h h' : Heap) (l : Link) (ts : List Transfer)
    → IsList ts h l h'
    → (h'' : Heap) × (free_transfer_list (length ts + 1) l h' ≡ ok h'')
      × ((q : ℕ) → h''.live q ≡ (if leb h.used q && ltb q h'.used then false else h.live q))
free_transfer_list-IsList h h' l ts is =
    let (h'', runs, _, _, live) =
      free-Chain (length ts + 1) h.used ts h' (λ q. if h.used == q then false else h.live q)
        is.chain (λ q. ground (arith, is.live q, is.used)) (omega arith) in
    (
      h'',
      ap (λ l. free_transfer_list (length ts + 1) l h') is.head ∙ runs,
      λ q. ground (arith, live q, is.used),
    )
