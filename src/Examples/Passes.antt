-- ===== src/Examples/Passes.antt =====
-- A pass over the lanes of a folder and a file, with one record on the folder's lane.
use ios_sdk_develop.Prelude.{false}
use ios_sdk_develop.Record.{SyncRecord}
use ios_sdk_develop.Engine.{Instruction, process_next}
use ios_sdk_develop.Engine.Pass.{Process, Counts}
use ios_sdk_develop.Examples.{world}

abbrev budgets : Counts
budgets c = 2

abbrev process : Process
process w r = record { world = w; sync_record = r; instruction = process_next; error = false }

abbrev answer : SyncRecord → Instruction
answer r = process_next
