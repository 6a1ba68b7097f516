-- ===== src/Tus/Job.antt =====
-- ownCloudSDK/TUS/OCTUSJob.h and OCTUSJob.m: an upload in segments, each a copy of a part of the file. Files
-- are a dictionary from URLs to bytes; a file that is there can be read and one can be written anywhere.
pub mod Segments
use ios_sdk_develop.Prelude.{
  ℕ, zero, suc, ◌-◌, Bool, true, false, not, ◌&&◌, ◌||◌, Option, none, some, List, [], ◌∷◌, ◌++◌,
  ◌==◌, ltb, length, take, if◌then◌else◌, Text, codes, text_eq, lookup, with_key, without_key,
}
use ios_sdk_develop.Checksum.{Checksum}
use ios_sdk_develop.Tus.{Header, size_or_zero}

-- `OCTUSJobSegment`.
pub record Segment : Type 0 where
  pub offset : ℕ
  pub size : ℕ
  pub url : Option Text

pub record Job : Type 0 where
  pub header : Option Header
  pub file_url : Option Text
  pub segment_folder_url : Option Text
  pub upload_offset : Option ℕ
  pub max_segment_size : ℕ
  pub creation_url : Option Text
  pub upload_url : Option Text
  pub future_item_path : Option Text
  pub file_name : Option Text
  pub file_size : Option ℕ
  pub file_mod_date : Option ℕ
  pub file_checksum : Option Checksum
  pub event_target : Option ℕ
  pub last_segment : Option Segment

abbrev pub Files : Type 0
Files = List (Text × List ℕ)

unfoldable pub init_with_header : Header → Option Text → Option Text → Option Text → Job
init_with_header header segment_folder file_url creation_url = record {
  header = some header;
  file_url = file_url;
  segment_folder_url = segment_folder;
  upload_offset = none;
  max_segment_size = size_or_zero header.maximum_chunk_size;
  creation_url = creation_url;
  upload_url = none;
  future_item_path = none;
  file_name = none;
  file_size = none;
  file_mod_date = none;
  file_checksum = none;
  event_target = none;
  last_segment = none;
}

abbrev pub is_there : Option (List ℕ) → Bool
is_there none = false
is_there (some bytes) = true

abbrev pub exists_at : Files → Option Text → Bool
exists_at fs none = false
exists_at fs (some url) = is_there (lookup text_eq url fs)

-- `isValid` of a segment.
unfoldable pub is_valid_segment : Files → Segment → Bool
is_valid_segment fs s = ltb 0 s.size && exists_at fs s.url

abbrev pub rest_from : ℕ → List ℕ → List ℕ
rest_from zero bs = bs
rest_from (suc n) [] = []
rest_from (suc n) (b ∷ bs) = rest_from n bs

abbrev pub after_chunk : List ℕ → Option (List ℕ) → Option (List ℕ)
after_chunk data_read none = none
after_chunk data_read (some copied) = some (data_read ++ copied)

-- The loop that copies, in chunks of at most 100000 bytes, of which none is larger than what is left of
-- the size; none where the fuel ends.
unfoldable pub copy_chunks : ℕ → ℕ → ℕ → List ℕ → Option (List ℕ)
copy_chunks zero chunk size_left unread = none
copy_chunks (suc fuel) chunk size_left unread =
    let next_chunk = if ltb size_left chunk then size_left else chunk in
    let data_read = take next_chunk unread in
    let copied =
      copy_chunks fuel next_chunk (size_left - length data_read) (rest_from next_chunk unread) in
    if size_left == 0 || (chunk == 0 || length data_read == 0)
    then some []
    else after_chunk data_read copied

abbrev pub copy_chunk_size : ℕ
copy_chunk_size = 100000

abbrev pub is_last : Files → ℕ → ℕ → Option Segment → Bool
is_last fs offset size none = false
is_last fs offset size (some s) = s.offset == offset && (s.size == size && is_valid_segment fs s)

abbrev pub remove_file : Option Text → Files → Files
remove_file none fs = fs
remove_file (some url) fs = without_key text_eq url fs

abbrev pub remove_last_segment : Option Segment → Files → Files
remove_last_segment none fs = fs
remove_last_segment (some s) fs = if is_valid_segment fs s then remove_file s.url fs else fs

abbrev pub last_segment_left : Option Segment → Files → Option Segment
last_segment_left none fs = none
last_segment_left (some s) fs = if is_valid_segment fs s then none else some s

abbrev pub source_of : Option Text → Files → Option (List ℕ)
source_of none fs = none
source_of (some url) fs = lookup text_eq url fs

-- The answer: the segment, the job and the files.
pub record Answer : Type 0 where
  pub segment : Option Segment
  pub job : Job
  pub files : Files

abbrev pub with_copy : Job → Files → Text → ℕ → Option (List ℕ) → Answer
with_copy j fs url offset none = record { segment = none; job = j; files = fs }
with_copy j fs url offset (some bytes) =
    let s : Segment = record { offset = offset; size = length bytes; url = some url } in
    record {
      segment = some s;
      job = record j { last_segment = some s };
      files = with_key text_eq url bytes fs;
    }

abbrev pub copy_from : Option (List ℕ) → ℕ → ℕ → Option (List ℕ)
copy_from none offset size = none
copy_from (some bytes) offset size =
    copy_chunks (suc size) copy_chunk_size size (rest_from offset bytes)

-- `requestSegmentFromOffset:withSize:error:`, with the URL that is made for the segment.
unfoldable pub request_segment : Files → Text → ℕ → ℕ → Job → Answer
unfolding copy_chunks
request_segment fs url offset size j =
    if is_last fs offset size j.last_segment
    then record { segment = j.last_segment; job = j; files = fs }
    else with_copy (record j { last_segment = last_segment_left j.last_segment fs })
        (remove_last_segment j.last_segment fs) url offset
        (copy_from (source_of j.file_url (remove_last_segment j.last_segment fs)) offset size)
