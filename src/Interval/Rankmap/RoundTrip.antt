-- ===== src/Interval/Rankmap/RoundTrip.antt =====
-- `init_rankmap` reads the rank map that the calls of `ph_io_wtrankmap` write.
use perf_hound.Prelude.{
  ℕ, suc, ◌-◌, ◌≤◌, ◌≡◌, ◌≢◌, refl, sym, ap, ◌∙◌, arith, List, [], ◌∷◌, ◌++◌, append_assoc,
  append-nil, Bytes, ◌==◌, length, length-append, All, map, false,
}
use perf_hound.Prelude.Run.{done}
use perf_hound.Probe.{Machine, Mode, State}
use perf_hound.Probe.Number.{decimal}
use perf_hound.Probe.Setup.{Process, wtrankmap}
use perf_hound.Probe.Row.{all_other, comma, newline}
use perf_hound.Interval.Rankmap.{count_lines, read_rankmap}
use perf_hound.Interval.Rankmap.Rows.{
  IsPlain, IsProcess, job_of, header, line_end, line, map_rows, length-row, decimal-line, on_line,
  line_end-line, walk_line, loop-map_rows,
}

-- The text of the whole map.
abbrev whole_map : List Process → Bytes
whole_map ps = header ++ (newline ∷ map_rows ps)

count_lines-text :
    (t rest : Bytes)
    → All (λ b. b ≢ newline) t
    → count_lines (t ++ (newline ∷ rest)) ≡ suc (count_lines rest)
unfolding count_lines
count_lines-text [] rest d = omega arith
count_lines-text (c ∷ t) rest d = ground (arith, d.0, count_lines-text t rest d.1)

over :
    (t rest : Bytes)
    → All (λ b. b ≢ newline) t
    → count_lines (t ++ (comma ∷ rest)) ≡ count_lines rest
unfolding count_lines
over [] rest d = omega arith
over (c ∷ t) rest d = ground (arith, d.0, over t rest d.1)

count_lines-line :
    (p : Process) (rest : Bytes)
    → All IsPlain p.host
    → count_lines (line p rest) ≡ suc (count_lines rest)
count_lines-line p rest plain =
    over (decimal p.rank) _ (decimal-line p.rank)
    ∙ over p.host _ (on_line p.host plain)
    ∙ over (decimal p.cpu) _ (decimal-line p.cpu)
    ∙ count_lines-text (line_end p) rest (line_end-line p)

count_lines-map_rows :
    (ps : List Process) → All IsProcess ps → count_lines (map_rows ps) ≡ length ps
unfolding map_rows
count_lines-map_rows [] w = unfold count_lines in refl
count_lines-map_rows (p ∷ ps) w =
    omega (arith, count_lines-line p (map_rows ps) (w.0.host_plain), count_lines-map_rows ps w.1)

positive : (n : ℕ) → (suc n == 0) ≡ false
positive n = ground arith

rows_some : (p : Process) (ps : List Process) → 1 ≤ length (map_rows (p ∷ ps))
rows_some p ps = omega (arith, length-row p ps)

read_whole_map :
    (p : Process) (ps : List Process)
    → All IsProcess (p ∷ ps)
    → read_rankmap (whole_map (p ∷ ps)) ≡ done (map job_of (p ∷ ps))
unfolding read_rankmap
read_whole_map p ps w =
    let plain = all_other header refl in
    let lines : count_lines (whole_map (p ∷ ps)) - 1 ≡ length (p ∷ ps) =
      omega (
        arith,
        count_lines-text header (map_rows (p ∷ ps)) plain,
        count_lines-map_rows (p ∷ ps) w,
      ) in
    let size = length-append header (newline ∷ map_rows (p ∷ ps)) in
    rw (lines, positive (length ps))
      (walk_line (length (p ∷ ps)) header (map_rows (p ∷ ps)) _ 0 (omega arith) plain
          (omega (arith, size))
        ∙ loop-map_rows (length (p ∷ ps)) (p ∷ ps) _ 0 w (omega (arith, size)) (omega arith))

module _ (h : Machine) (o : Mode) where
  -- The processes write their lines one after the other.
  unfoldable pub listed : List Process → State h → State h
  listed [] s = s
  listed (p ∷ ps) s = listed ps (wtrankmap h o p s)

  rankmap_file-listed :
      (ps : List Process) (s : State h) → (listed ps s).rankmap_file ≡ s.rankmap_file ++ map_rows ps
  unfolding listed map_rows wtrankmap
  rankmap_file-listed [] s = sym (append-nil s.rankmap_file)
  rankmap_file-listed (p ∷ ps) s = rankmap_file-listed ps (wtrankmap h o p s) ∙ simp append_assoc

  -- Of the rank map that one or more processes with numbers of 32 bits and plain host names of 1
  -- to 63 bytes write one after the other behind its header, the interval tool reads back the
  -- rank, the host and the processor of each, in their order.
  pub read_rankmap-listed :
      (p : Process) (ps : List Process) (s : State h)
      → All IsProcess (p ∷ ps)
      → s.rankmap_file ≡ header ++ newline ∷ []
      → read_rankmap ((listed (p ∷ ps) s).rankmap_file) ≡ done (map job_of (p ∷ ps))
  read_rankmap-listed p ps s w begun =
      ap read_rankmap (
        rankmap_file-listed (p ∷ ps) s
        ∙ ap (λ t. t ++ map_rows (p ∷ ps)) begun
        ∙ append_assoc header (newline ∷ []) (map_rows (p ∷ ps)))
      ∙ read_whole_map p ps w
