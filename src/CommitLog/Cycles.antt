-- ===== src/CommitLog/Cycles.antt =====
-- What the parser gets from the log of a run: the instructions that reach WB, in their order.
use risc_v_pipeline_sim.Common.{
  ℕ, ◌+◌, ◌^◌, ◌<◌, ◌≡◌, refl, ap, ◌∙◌, arith, ◌==◌, Option, none, some, List, [], ◌∷◌, ◌++◌, All,
  All-append, Text, if◌then◌else◌,
}
use risc_v_pipeline_sim.Common.Lines.{OneLine, strip}
use risc_v_pipeline_sim.SvLog.{LogLine, pc_line, reg_line, mem_line, classify}
use risc_v_pipeline_sim.SvLog.Records.{classified, last_of, last_pc, last_reg, last_mem}
use risc_v_pipeline_sim.CommitLog.{Cycle, mem_lines, wb_lines, next_idx, log_lines}
use risc_v_pipeline_sim.CommitLog.Lines.{classify-print_pc, classify-print_reg, classify-print_mem}
use risc_v_pipeline_sim.CommitLog.Solid.{
  Printed, print_pc-Printed, print_reg-Printed, print_mem-Printed,
}

pub Printed-OneLine : (lines : List Text) → All Printed lines → All OneLine lines
Printed-OneLine [] h = tt
Printed-OneLine (line ∷ lines) h = (h.0.1, Printed-OneLine lines h.1)

abbrev pub onto : {A : Type 0} → Option A → List A → List A
onto none xs = xs
onto (some x) xs = x ∷ xs

-- The instructions that went through a stage, in order.
abbrev pub stores : List Cycle → List (Option (ℕ × ℕ))
stores [] = []
stores (c ∷ cycles) = onto c.ex_mem (stores cycles)

abbrev pub retired : List Cycle → List (ℕ × Option (ℕ × ℕ))
retired [] = []
retired (c ∷ cycles) = onto c.mem_wb (retired cycles)

-- All values are of 32 bits, as the signals are.
abbrev pub ValueFits : Option (ℕ × ℕ) → Type 0
ValueFits none = Unit
ValueFits (some (a, v)) = v < 2 ^ 32

abbrev pub CycleFits : Cycle → Type 0
CycleFits c =
    All ValueFits (onto c.ex_mem [])
    × All (λ (r : ℕ × Option (ℕ × ℕ)). ValueFits r.1) (onto c.mem_wb [])

mem_lines-Printed : (i : ℕ) (m : Option (Option (ℕ × ℕ))) → All Printed (mem_lines i m)
unfolding mem_lines
mem_lines-Printed i none = tt
mem_lines-Printed i (some none) = tt
mem_lines-Printed i (some (some (addr, val))) = (print_mem-Printed i addr val, tt)

wb_lines-Printed : (i : ℕ) (w : Option (ℕ × Option (ℕ × ℕ))) → All Printed (wb_lines i w)
unfolding wb_lines
wb_lines-Printed i none = tt
wb_lines-Printed i (some (pc, none)) = (print_pc-Printed i pc, tt)
wb_lines-Printed i (some (pc, some (rd, val))) =
    (print_pc-Printed i pc, (print_reg-Printed i rd val, tt))

pub log_lines-Printed : (m w : ℕ) (cycles : List Cycle) → All Printed (log_lines m w cycles)
unfolding log_lines
log_lines-Printed m w [] = tt
log_lines-Printed m w (c ∷ cycles) =
    All-append Printed (mem_lines m c.ex_mem) _ (mem_lines-Printed m c.ex_mem) (
      All-append Printed (wb_lines w c.mem_wb) _ (wb_lines-Printed w c.mem_wb)
        (log_lines-Printed (next_idx m c.ex_mem) (next_idx w c.mem_wb) cycles))

-- The element that has an index when the first has index i.
abbrev pub numbered : {A : Type 0} → (i idx : ℕ) → List A → Option A
numbered i idx [] = none
numbered i idx (x ∷ xs) = let rest = numbered (i + 1) idx xs in if i == idx then some x else rest

pub numbered_later : {A : Type 0} (i idx : ℕ) (xs : List A) → idx < i → numbered i idx xs ≡ none
numbered_later i idx [] h = refl
numbered_later i idx (x ∷ xs) h = ground (arith, numbered_later (i + 1) idx xs)

abbrev pub pc_of : Option (ℕ × Option (ℕ × ℕ)) → Option ℕ
pc_of none = none
pc_of (some (pc, reg)) = some pc

abbrev pub reg_of : Option (ℕ × Option (ℕ × ℕ)) → Option (ℕ × ℕ)
reg_of none = none
reg_of (some (pc, reg)) = reg

abbrev pub store_of : Option (Option (ℕ × ℕ)) → Option (ℕ × ℕ)
store_of none = none
store_of (some m) = m

classified-append : (a b : List Text) → classified (a ++ b) ≡ classified a ++ classified b
classified-append [] b = refl
classified-append (x ∷ a) b = ap (λ t. classify (strip x) ∷ t) (classified-append a b)

-- The kinds of the lines of one cycle, and of a run.
abbrev pub mem_kind : ℕ → Option (Option (ℕ × ℕ)) → List LogLine
mem_kind i none = []
mem_kind i (some none) = []
mem_kind i (some (some (addr, val))) = mem_line i addr val ∷ []

abbrev pub wb_kind : ℕ → Option (ℕ × Option (ℕ × ℕ)) → List LogLine
wb_kind i none = []
wb_kind i (some (pc, none)) = pc_line i pc ∷ []
wb_kind i (some (pc, some (rd, val))) = pc_line i pc ∷ reg_line i rd val ∷ []

abbrev pub kinds : ℕ → ℕ → List Cycle → List LogLine
kinds m w [] = []
kinds m w (c ∷ cycles) =
    mem_kind m c.ex_mem
    ++ (wb_kind w c.mem_wb ++ kinds (next_idx m c.ex_mem) (next_idx w c.mem_wb) cycles)

classified-mem_lines :
    (i : ℕ) (m : Option (Option (ℕ × ℕ)))
    → All ValueFits (onto m [])
    → classified (mem_lines i m) ≡ mem_kind i m
unfolding mem_lines
classified-mem_lines i none h = refl
classified-mem_lines i (some none) h = refl
classified-mem_lines i (some (some (addr, val))) h =
    rw ((print_mem-Printed i addr val).0, classify-print_mem i addr val h.0) refl

classified-wb_lines :
    (i : ℕ) (w : Option (ℕ × Option (ℕ × ℕ)))
    → All (λ (r : ℕ × Option (ℕ × ℕ)). ValueFits r.1) (onto w [])
    → classified (wb_lines i w) ≡ wb_kind i w
unfolding wb_lines
classified-wb_lines i none h = refl
classified-wb_lines i (some (pc, none)) h =
    rw ((print_pc-Printed i pc).0, classify-print_pc i pc) refl
classified-wb_lines i (some (pc, some (rd, val))) h =
    rw
      (
        (print_pc-Printed i pc).0,
        classify-print_pc i pc,
        (print_reg-Printed i rd val).0,
        classify-print_reg i rd val h.0,
      )
      refl

pub classified-log_lines :
    (m w : ℕ) (cycles : List Cycle)
    → All CycleFits cycles
    → classified (log_lines m w cycles) ≡ kinds m w cycles
unfolding log_lines
classified-log_lines m w [] h = refl
classified-log_lines m w (c ∷ cycles) h =
    classified-append (mem_lines m c.ex_mem) _
    ∙ (rw
        (
          classified-mem_lines m c.ex_mem h.0.0,
          classified-append (wb_lines w c.mem_wb)
              (log_lines (next_idx m c.ex_mem) (next_idx w c.mem_wb) cycles),
          classified-wb_lines w c.mem_wb h.0.1,
          classified-log_lines (next_idx m c.ex_mem) (next_idx w c.mem_wb) cycles h.1,
        )
        refl)

-- What the lines of a cycle say of an index.
module _ (idx i : ℕ) (rest : List LogLine) where
  pub mem_kind-last :
      (m : Option (Option (ℕ × ℕ)))
      → (last_pc idx (mem_kind i m ++ rest) ≡ last_pc idx rest)
        × (last_reg idx (mem_kind i m ++ rest) ≡ last_reg idx rest)
        × (last_mem idx (mem_kind i m ++ rest)
            ≡ last_of (last_mem idx rest) (store_of (numbered i idx (onto m []))))
  mem_kind-last none = ground arith
  mem_kind-last (some none) = ground arith
  mem_kind-last (some (some (addr, val))) = ground arith

  pub wb_kind-last :
      (w : Option (ℕ × Option (ℕ × ℕ)))
      → (last_pc idx (wb_kind i w ++ rest)
          ≡ last_of (last_pc idx rest) (pc_of (numbered i idx (onto w []))))
        × (last_reg idx (wb_kind i w ++ rest)
            ≡ last_of (last_reg idx rest) (reg_of (numbered i idx (onto w []))))
        × (last_mem idx (wb_kind i w ++ rest) ≡ last_mem idx rest)
  wb_kind-last none = ground arith
  wb_kind-last (some (pc, none)) = ground arith
  wb_kind-last (some (pc, some (rd, val))) = ground arith
