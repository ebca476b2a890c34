-- ===== src/Tests/Commands.antt =====
-- Runs of the theorems about the command line, over files as a function from their paths.
use lakesis.Base.{
  ℕ, ◌≡◌, refl, sym, ap, ◌∙◌, List, [], ◌∷◌, Option, none, some, false, if◌then◌else◌, length, map,
  arith,
}
use lakesis.Base.Text.{Text, codes, text_eq, text_eq_refl}
use lakesis.Base.Result.{Result, ok, err, ok_or}
use lakesis.Opcodes.Decode.{Opcode}
use lakesis.Assembler.Encoder.Program.{opcode_of}
use lakesis.CommandLine.{
  Platform, assembled, viewed, disassemble, assemble, assemble_to, on_file, on_source, run,
  assemble_and_run,
}
use lakesis.CommandLine.Compose.{
  KeepsFiles, assemble_and_run-assemble, disassemble-assemble_to, assemble-same_file,
  assemble-nothing,
}
use lakesis.Tests.Lexing.{ascii, text, lines, accepted, text_lacks}
use lakesis.Tests.Running.{assembled as source_assembled, code}

abbrev Disk : Type 0
Disk = Text → Option (List ℕ)

abbrev store : Text → List ℕ → Disk → Disk
store path bytes disk other = if text_eq path other then some bytes else disk other

abbrev fetch : Text → Disk → Result (Unit {0}) (List ℕ)
fetch path disk = ok_or (disk path) tt

abbrev disks : Platform Disk (Unit {0})
disks = record {
  open_file = λ path disk. elim (disk path) [ none ↦ err tt | some bytes ↦ ok tt ];
  file_len = λ path disk. elim (disk path) [ none ↦ err tt | some bytes ↦ ok (length bytes) ];
  create_file = λ path disk. ok (store path [] disk);
  read_to_end = fetch;
  write_all = λ path bytes disk. ok (store path bytes disk);
  with_extension = λ path extension. path;
  from_utf8_lossy = λ bytes. bytes;
  classes = ascii;
}

stored : (path : Text) (bytes : List ℕ) (disk : Disk) → store path bytes disk path ≡ some bytes
stored path bytes disk = rw (text_eq_refl path) refl

stored_apart :
    (path other : Text) (bytes : List ℕ) (disk : Disk)
    → text_eq path other ≡ false
    → store path bytes disk other ≡ disk other
stored_apart path other bytes disk apart = rw apart refl

written : {disk disk' : Disk} → ◌≡◌ {A = Result (Unit {0}) Disk} (ok disk) (ok disk') → disk ≡ disk'
written h = cc

abbrev keeps : KeepsFiles disks
keeps = record {
  is_same_file = λ path other disk. text_eq path other;
  read-create_same =
      λ path w w' h. ap (fetch path) (sym (written h)) ∙ ap (λ o. ok_or o tt) (stored path [] w);
  read-create_other = λ path other w w' apart h.
      ap (fetch other) (sym (written h))
      ∙ ap (λ o. ok_or o tt) (stored_apart path other [] w apart);
  open-write = λ path bytes w w' h.
      ap (disks.open_file path) (sym (written h))
      ∙ ap (λ o. elim o [ none ↦ err tt | some b ↦ ok tt ]) (stored path bytes w);
  len-write = λ path bytes w w' h.
      ap (disks.file_len path) (sym (written h))
      ∙ ap (λ o. elim o [ none ↦ err tt | some b ↦ ok (length b) ]) (stored path bytes w);
  read-write = λ path bytes w w' h.
      ap (fetch path) (sym (written h)) ∙ ap (λ o. ok_or o tt) (stored path bytes w);
}

abbrev disk : Disk
disk = store (codes "a") text (λ path. none)

abbrev disk_after : Disk
disk_after = store (codes "b") code (store (codes "b") [] disk)

on_disk : assemble disks (codes "a" ∷ codes "b" ∷ []) disk ≡ ok (assembled disk_after)
unfolding assemble assemble_to on_file on_source text_eq
on_disk = rw source_assembled refl

apart : text_eq (codes "b") (codes "a") ≡ false
unfolding text_eq
apart = refl

abbrev no_numbers : ℕ → ℕ
no_numbers k = 0

assemble_and_run-assemble_example :
    assemble_and_run disks 2 no_numbers (codes "a" ∷ []) disk
    ≡ run disks 2 no_numbers (codes "b" ∷ []) disk_after
assemble_and_run-assemble_example =
    assemble_and_run-assemble disks keeps 2 no_numbers (codes "a") (codes "b") disk disk_after apart
      on_disk

disassemble-assemble_to_example :
    (printed : List (ℕ × Opcode)) × (disassemble disks (codes "b" ∷ []) disk_after
      ≡ ok (viewed printed (ok tt)))
    × (map (λ l. l.1) printed ≡ map opcode_of lines)
disassemble-assemble_to_example =
    disassemble-assemble_to disks keeps (codes "a") (codes "b") disk disk_after text lines apart
      (ap (λ o. ok_or o tt) (stored (codes "a") text (λ path. none))) text_lacks accepted
      ((omega arith, (omega arith, tt)), (tt, tt)) on_disk

abbrev disk_lost : Disk
disk_lost = store (codes "a") [] (store (codes "a") [] disk)

onto_itself : assemble disks (codes "a" ∷ codes "a" ∷ []) disk ≡ ok (assembled disk_lost)
unfolding assemble assemble_to on_file on_source text_eq
onto_itself = rw (assemble-nothing ascii) refl

assemble-same_file_example : disks.read_to_end (codes "a") disk_lost ≡ ok []
assemble-same_file_example =
    assemble-same_file disks keeps (codes "a") disk disk_lost refl onto_itself
