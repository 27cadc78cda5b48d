-- ===== src/Wiki/Pages.antt =====
-- `Remember`: what each of its endings leaves in the files.
use opengrab.Prelude.{
  ◌≡◌, ◌⊎◌, inl, inr, true, false, [], ◌∷◌, ◌++◌, Option, none, some, refl, sym, arith, ap, ◌∙◌,
  append-nil,
}
use opengrab.Text.{Text, text_eq, has_text, contains, has_prefix, take_bytes}
use opengrab.Memory.{text_or_empty}
use opengrab.Memory.Index.{has_prefix-append}
use opengrab.Wiki.{
  new_memory_store, Disk, put_text, FileSystem, FileError, Answer, refused, broken, complete,
  write_as, append_as, and_then, write_failed, append_failed, append_file, insert_at, remember, Now,
  page_path, page_text, log_entry, index_entry,
}
use opengrab.Wiki.Files.{Same, put_text-same, write_as-Same, InsertedAt, insert_at_lem}

-- The three files of `Remember` are three.
abbrev log_at : Text
log_at = new_memory_store.log_path

abbrev index_at : Text
index_at = new_memory_store.index_path

pub page-other :
    (now : Now) (input : Text)
    → let page = page_path new_memory_store now input in
      (text_eq page log_at ≡ false)
      × (text_eq page index_at ≡ false)
      × (text_eq log_at page ≡ false)
      × (text_eq index_at page ≡ false)
unfolding text_eq
page-other now input = (refl, refl, refl, refl)

pub log-index : (text_eq log_at index_at ≡ false) × (text_eq index_at log_at ≡ false)
unfolding text_eq
log-index = (refl, refl)

abbrev pub with_page : Now → Text → Text → Disk → Disk
with_page now input reply =
    put_text (page_path new_memory_store now input) (some (page_text now input reply))

abbrev pub with_log : Now → Text → Disk → Disk
with_log now input disk =
    put_text log_at (some (text_or_empty (disk log_at) ++ log_entry now input)) disk

with_page-Same :
    (now : Now) (input reply : Text) (disk : Disk)
    → Same (page_path new_memory_store now input ∷ []) disk (with_page now input reply disk)
unfolding has_text
with_page-Same now input reply disk p h = ground arith

-- The page and the log are written.
abbrev pub Logged : Now → Text → Text → Disk → Disk → Type 0
Logged now input reply disk new =
    (new (page_path new_memory_store now input) ≡ some (page_text now input reply))
    × (new log_at ≡ some (text_or_empty (disk log_at) ++ log_entry now input))

pub with_log-Logged :
    (now : Now) (input reply : Text) (disk : Disk)
    → let new = with_log now input (with_page now input reply disk) in
      Logged now input reply disk new
      × Same (page_path new_memory_store now input ∷ log_at ∷ []) disk new
unfolding has_text
with_log-Logged now input reply disk =
    let page = page_path new_memory_store now input in
    let d = with_page now input reply disk in
    let (pl, pi, lp, ip) = page-other now input in
    let old : d log_at ≡ disk log_at = rw pl refl in
    (
      (
        rw lp (put_text-same page (some (page_text now input reply)) disk),
        put_text-same log_at (some (text_or_empty (d log_at) ++ log_entry now input)) d
            ∙ ap (λ f. some (text_or_empty f ++ log_entry now input)) old,
      ),
      λ p h. ground arith,
    )

-- The endings of `Remember`: no error, and the error of the page, of the log and of the index.
abbrev pub Remembered : Now → Text → Text → Disk → Disk × Option FileError → Type 0
Remembered now input reply disk r =
    let page = page_path new_memory_store now input in
    ((r.1 ≡ none)
      × Logged now input reply disk r.0
      × (contains (text_or_empty (r.0 index_at)) (index_entry now input) ≡ true)
      × Same (page ∷ log_at ∷ index_at ∷ []) disk r.0)
    ⊎ ((r.1 ≡ some (write_failed page)) × Same (page ∷ []) disk r.0)
    ⊎ ((r.1 ≡ some (append_failed log_at))
        × (r.0 page ≡ some (page_text now input reply))
        × (has_prefix (text_or_empty (r.0 log_at)) (text_or_empty (disk log_at)) ≡ true)
        × Same (page ∷ log_at ∷ []) disk r.0)
    ⊎ ((r.1 ≡ some (write_failed index_at))
        × Logged now input reply disk r.0
        × Same (page ∷ log_at ∷ index_at ∷ []) disk r.0)

-- Behind the page and the log.
indexed :
    (fs : FileSystem) (now : Now) (input reply : Text) (disk d : Disk)
    → Logged now input reply disk d
    → Same (page_path new_memory_store now input ∷ log_at ∷ []) disk d
    → InsertedAt index_at
        (index_entry now input)
        d
        (insert_at fs index_at (index_entry now input) d)
    → Remembered now input reply disk (insert_at fs index_at (index_entry now input) d)
unfolding has_text
indexed fs now input reply disk d (page, log) same (inl (e, found, only)) =
    let at = page_path new_memory_store now input in
    let (pl, pi, lp, ip) = page-other now input in
    let (li, il) = log-index in
    inl (
      e,
      (only at (rw ip refl) ∙ page, only log_at (rw il refl) ∙ log),
      found,
      λ p h. only p (ground arith) ∙ same p (ground arith),
    )
indexed fs now input reply disk d (page, log) same (inr (e, only)) =
    let at = page_path new_memory_store now input in
    let (pl, pi, lp, ip) = page-other now input in
    let (li, il) = log-index in
    inr (
      inr (
        inr (
          e,
          (only at (rw ip refl) ∙ page, only log_at (rw il refl) ∙ log),
          λ p h. only p (ground arith) ∙ same p (ground arith),
        )))

-- Behind the page, with a log that could not be written to its end.
log_failed :
    (now : Now) (input reply : Text) (disk : Disk) (more : Text)
    → let page = page_path new_memory_store now input in
      let d = with_page now input reply disk in
      let r = put_text log_at (some (text_or_empty (d log_at) ++ more)) d in
      (r page ≡ some (page_text now input reply))
      × (has_prefix (text_or_empty (r log_at)) (text_or_empty (disk log_at)) ≡ true)
      × Same (page ∷ log_at ∷ []) disk r
unfolding has_text
log_failed now input reply disk more =
    let page = page_path new_memory_store now input in
    let d = with_page now input reply disk in
    let (pl, pi, lp, ip) = page-other now input in
    let old : d log_at ≡ disk log_at = rw pl refl in
    (
      rw lp (put_text-same page (some (page_text now input reply)) disk),
      ap (λ f. has_prefix (text_or_empty f) (text_or_empty (disk log_at)))
            (put_text-same log_at (some (text_or_empty (d log_at) ++ more)) d)
          ∙ ap (λ f. has_prefix (text_or_empty f ++ more) (text_or_empty (disk log_at))) old
          ∙ has_prefix-append (text_or_empty (disk log_at)) more,
      λ p h. ground arith,
    )

log_refused :
    (now : Now) (input reply : Text) (disk : Disk)
    → let page = page_path new_memory_store now input in
      let r = with_page now input reply disk in
      (r page ≡ some (page_text now input reply))
      × (has_prefix (text_or_empty (r log_at)) (text_or_empty (disk log_at)) ≡ true)
      × Same (page ∷ log_at ∷ []) disk r
unfolding has_text
log_refused now input reply disk =
    let page = page_path new_memory_store now input in
    let (pl, pi, lp, ip) = page-other now input in
    let old : with_page now input reply disk log_at ≡ disk log_at = rw pl refl in
    (
      put_text-same page (some (page_text now input reply)) disk,
      ap (λ f. has_prefix (text_or_empty f) (text_or_empty (disk log_at))) old
          ∙ ap (λ t. has_prefix t (text_or_empty (disk log_at)))
              (sym (append-nil (text_or_empty (disk log_at))))
          ∙ has_prefix-append (text_or_empty (disk log_at)) [],
      λ p h. ground arith,
    )

-- The three calls, for whatever the first two answer.
answered :
    (page_answer log_answer : Answer) (fs : FileSystem) (now : Now) (input reply : Text)
    (disk : Disk)
    → fs.read_ok index_at ≡ true
    → let page = page_path new_memory_store now input in
      Remembered now input reply disk (
        and_then (write_as page_answer page (page_text now input reply) disk) (λ d.
          and_then
            (append_as log_answer log_at (log_entry now input) d)
            (insert_at fs index_at (index_entry now input))))
answered refused log_answer fs now input reply disk read =
    let page = page_path new_memory_store now input in
    inr (inl (refl, write_as-Same refused page (page_text now input reply) disk))
answered (broken n) log_answer fs now input reply disk read =
    let page = page_path new_memory_store now input in
    inr (inl (refl, write_as-Same (broken n) page (page_text now input reply) disk))
answered complete refused fs now input reply disk read =
    let (page, log, same) = log_refused now input reply disk in
    inr (inr (inl (refl, page, log, same)))
answered complete (broken n) fs now input reply disk read =
    let (page, log, same) = log_failed now input reply disk (take_bytes n (log_entry now input)) in
    inr (inr (inl (refl, page, log, same)))
answered complete complete fs now input reply disk read =
    let (logged, same) = with_log-Logged now input reply disk in
    let d = with_log now input (with_page now input reply disk) in
    indexed fs now input reply disk d logged same
      (insert_at_lem fs index_at (index_entry now input) d read)

-- With an index that can be read or is missing `Remember` ends in one of four ways. It returns nil:
-- the page is written, the entry stands at the end of the log, the index has its entry, and no other
-- file differs. It returns the error of the page, and at most the page differs. It returns the error
-- of the log: the page is written, the log begins with what it was, and no file but these differs.
-- It returns the error of the index: the page and the log are written, and at most the index differs
-- besides.
pub remember-Remembered :
    (fs : FileSystem) (now : Now) (input reply : Text) (disk : Disk)
    → fs.read_ok index_at ≡ true
    → Remembered now input reply disk (remember fs new_memory_store now input reply disk)
unfolding remember append_file
remember-Remembered fs now input reply disk read =
    let page = page_path new_memory_store now input in
    answered (fs.write page) (fs.append log_at) fs now input reply disk read
