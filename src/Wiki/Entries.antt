-- ===== src/Wiki/Entries.antt =====
-- `Remember` and `Context`: the entries that a run of conversations leaves in the log.
use opengrab.Prelude.{
  ◌≡◌, ℕ, suc, Bool, true, false, List, [], ◌∷◌, ◌++◌, map, length, ◌==◌, refl, sym, arith, ap, ◌∙◌,
  if◌then◌else◌, append_assoc, append-nil,
}
use opengrab.Text.{has_text, Text, codes, is_space, has_prefix, contains, trim_space, join, split}
use opengrab.Memory.{text_or_empty, slugify, is_slug_rune}
use opengrab.Memory.Slug.{is_words, is_slug, slugify-is_slug}
use opengrab.Excerpt.{first_of, first_line, one_line, entry_mark, tail_log}
use opengrab.Excerpt.OneLine.{is_one_line, is_one_line-append, one_line_lem}
use opengrab.Excerpt.LogTail.{IsBody, AllBodies, entries, separator, tail_log_lem}
use opengrab.Wiki.{
  complete, FileSystem, Disk, Now, new_memory_store, remember, append_file, index_entry, log_body,
  log_entry, rel_page, page_name, title_of, or_conversation, page_path,
}
use opengrab.Wiki.Files.{insert_at-Same}
use opengrab.Wiki.Pages.{with_page, with_log, with_log-Logged, log-index}

is_one_line-head : (c : ℕ) (s : Text) → is_one_line (c ∷ s) ≡ true → (c == b'\n') ≡ false
unfolding is_one_line is_space
is_one_line-head c s h = ground arith

has_prefix-other : (c : ℕ) (s : Text) → (c == b'\n') ≡ false → has_prefix (c ∷ s) separator ≡ false
unfolding has_prefix
has_prefix-other c s h = rw h refl

is_one_line-tail : (c : ℕ) (s : Text) → is_one_line (c ∷ s) ≡ true → is_one_line s ≡ true
unfolding is_one_line
is_one_line-tail c s h = ground arith

-- A text of one line holds no mark of an entry, whatever stands behind it.
contains-behind :
    (s u : Text) → is_one_line s ≡ true → contains (s ++ u) separator ≡ contains u separator
unfolding contains
contains-behind [] u h = refl
contains-behind (c ∷ s) u h =
    rw (has_prefix-other c (s ++ u) (is_one_line-head c s h))
      (contains-behind s u (is_one_line-tail c s h))

first_of-one_line : (lines : List Text) → is_one_line (first_of lines) ≡ true
unfolding first_of
first_of-one_line [] = unfold is_one_line in refl
first_of-one_line (line ∷ lines) =
    ground (arith, first_of-one_line lines, one_line_lem (trim_space line) 80 (omega arith))

or_conversation-one_line :
    (s : Text) → is_one_line s ≡ true → is_one_line (or_conversation s) ≡ true
unfolding is_one_line is_space
or_conversation-one_line [] h = refl
or_conversation-one_line (c ∷ s) h = h

title_of-one_line : (input : Text) → is_one_line (title_of input) ≡ true
unfolding first_line
title_of-one_line input =
    or_conversation-one_line (first_line input) (first_of-one_line (split input (codes "\n")))

-- `now` as its formats print it.
pub record IsPrinted (now : Now) : Type 0 where
  pub stamp_line : is_one_line now.stamp ≡ true
  pub log_time_line : is_one_line now.log_time ≡ true
  pub no_bracket : has_prefix now.log_time (codes "#") ≡ false

is_words-one_line :
    (behind_dash : Bool) (s : Text) → is_words behind_dash s ≡ true → is_one_line s ≡ true
unfolding is_words is_one_line
is_words-one_line behind_dash [] h = refl
is_words-one_line behind_dash (r ∷ s) h =
    let black : is_slug_rune r ≡ true → is_space r ≡ false = λ k. unfold is_space in ground arith in
    let dash : (r == b'-') ≡ true → is_space r ≡ false = λ k. unfold is_space in ground arith in
    ground (arith, black, dash, is_words-one_line true s, is_words-one_line false s)

is_slug-one_line : (s : Text) → is_slug s ≡ true → is_one_line s ≡ true
is_slug-one_line [] h = unfold is_one_line in refl
is_slug-one_line (c ∷ s) h = is_words-one_line true (c ∷ s) h

page_name-one_line :
    (now : Now) (input : Text) → IsPrinted now → is_one_line (page_name now input) ≡ true
unfolding page_name
page_name-one_line now input k =
    let slug = slugify (title_of input) in
    let md : is_one_line (codes ".md") ≡ true = unfold is_one_line is_space in refl in
    let dash : is_one_line (codes "-") ≡ true = unfold is_one_line is_space in refl in
    let word =
      or_conversation-one_line slug (is_slug-one_line slug (slugify-is_slug (title_of input))) in
    let rest = is_one_line-append (or_conversation slug) (codes ".md") word md in
    is_one_line-append now.stamp (codes "-" ++ (or_conversation slug ++ codes ".md")) k.stamp_line
      (is_one_line-append (codes "-") (or_conversation slug ++ codes ".md") dash rest)

no_bracket-behind :
    (s u : Text)
    → has_prefix s (codes "#") ≡ false
    → has_prefix (s ++ (codes "]" ++ u)) entry_mark ≡ false
unfolding has_prefix
no_bracket-behind [] u h = refl
no_bracket-behind (c ∷ s) u h = ground arith

contains-through :
    (s u v : Text)
    → is_one_line s ≡ true
    → contains ((s ++ u) ++ v) separator ≡ contains (u ++ v) separator
contains-through s u v h =
    ap (λ t. contains t separator) (append_assoc s u v) ∙ contains-behind s (u ++ v) h

contains-page : (u : Text) → contains (codes "\n\n- Page: [[" ++ u) separator ≡ contains u separator
unfolding contains has_prefix
contains-page u = refl

contains-user : (u : Text) → contains (codes "]]\n- User: " ++ u) separator ≡ contains u separator
unfolding contains has_prefix
contains-user u = refl

contains-end : contains (codes "\n" ++ codes "\n## ") separator ≡ false
unfolding contains has_prefix
contains-end = refl

log_body-IsBody : (now : Now) (input : Text) → IsPrinted now → IsBody (log_body now input)
unfolding log_body
log_body-IsBody now input k =
    let v = codes "\n## " in
    let user = one_line input 180 ++ codes "\n" in
    let page = rel_page now input ++ (codes "]]\n- User: " ++ user) in
    let title = title_of input ++ (codes "\n\n- Page: [[" ++ page) in
    let query : is_one_line (codes "] query | ") ≡ true = unfold is_one_line is_space in refl in
    let pages : is_one_line (codes "pages/") ≡ true = unfold is_one_line is_space in refl in
    record {
      no_mark =
          contains-through now.log_time (codes "] query | " ++ title) v k.log_time_line
          ∙ contains-through (codes "] query | ") title v query
          ∙ contains-through (title_of input) (codes "\n\n- Page: [[" ++ page) v
              (title_of-one_line input)
          ∙ contains-page (page ++ v)
          ∙ contains-through (rel_page now input) (codes "]]\n- User: " ++ user) v (
              is_one_line-append (codes "pages/") (page_name now input) pages
                (page_name-one_line now input k))
          ∙ contains-user (user ++ v)
          ∙ contains-through (one_line input 180) (codes "\n") v
              (one_line_lem input 180 (omega arith)).0
          ∙ contains-end;
      no_bracket = no_bracket-behind now.log_time (codes " query | " ++ title) k.no_bracket;
    }

abbrev pub Conversation : Type 0
Conversation = Now × Text × Text

-- A run of `Remember`.
unfoldable pub remember_all : FileSystem → List Conversation → Disk → Disk
remember_all fs [] disk = disk
remember_all fs ((now, input, reply) ∷ rest) disk =
    remember_all fs rest (remember fs new_memory_store now input reply disk).0

abbrev pub AllPrinted : List Conversation → Type 0
AllPrinted [] = Unit
AllPrinted ((now, input, reply) ∷ rest) = IsPrinted now × AllPrinted rest

abbrev pub bodies : List Conversation → List Text
bodies [] = []
bodies ((now, input, reply) ∷ rest) = log_body now input ∷ bodies rest

bodies-AllBodies : (cs : List Conversation) → AllPrinted cs → AllBodies (bodies cs)
bodies-AllBodies [] k = tt
bodies-AllBodies ((now, input, reply) ∷ rest) (h, k) =
    (log_body-IsBody now input h, bodies-AllBodies rest k)

abbrev log_at : Text
log_at = new_memory_store.log_path

abbrev pub logged : Disk → Text
logged disk = text_or_empty (disk log_at)

remember-logged :
    (fs : FileSystem) (now : Now) (input reply : Text) (disk : Disk)
    → fs.write (page_path new_memory_store now input) ≡ complete
    → fs.append log_at ≡ complete
    → logged (remember fs new_memory_store now input reply disk).0
      ≡ logged disk ++ log_entry now input
unfolding remember append_file
remember-logged fs now input reply disk page log =
    let d = with_log now input (with_page now input reply disk) in
    rw (page, log)
      (ap text_or_empty (
        insert_at-Same fs new_memory_store.index_path (index_entry now input) d log_at
          (unfold has_text in rw log-index.1 refl)
        ∙ (with_log-Logged now input reply disk).0.1))

pub remember_all-logged :
    (fs : FileSystem) (cs : List Conversation) (disk : Disk)
    → ((path : Text) → fs.write path ≡ complete)
    → fs.append log_at ≡ complete
    → logged (remember_all fs cs disk) ≡ logged disk ++ entries (bodies cs)
unfolding remember_all entries
remember_all-logged fs [] disk page log = sym (append-nil (logged disk))
remember_all-logged fs ((now, input, reply) ∷ rest) disk page log =
    remember_all-logged fs rest (remember fs new_memory_store now input reply disk).0 page log
    ∙ ap (λ t. t ++ entries (bodies rest))
        (remember-logged fs now input reply disk (page (page_path new_memory_store now input)) log)
    ∙ append_assoc (logged disk) (log_entry now input) (entries (bodies rest))

bodies-append : (cs ds : List Conversation) → bodies (cs ++ ds) ≡ bodies cs ++ bodies ds
bodies-append [] ds = refl
bodies-append ((now, input, reply) ∷ rest) ds =
    ap (λ bs. log_body now input ∷ bs) (bodies-append rest ds)

length-bodies : (cs : List Conversation) → length (bodies cs) ≡ length cs
length-bodies [] = refl
length-bodies ((now, input, reply) ∷ rest) = ap suc (length-bodies rest)

abbrev pub with_marks : List Text → List Text
with_marks bs = map (λ b. entry_mark ++ b) bs

tail_log-bodies :
    (header : Text) (older recent : List Conversation)
    → contains (header ++ codes "\n## ") separator ≡ false
    → AllPrinted (older ++ recent)
    → tail_log (header ++ entries (bodies (older ++ recent))) (length recent) ≡ (
        if length older == 0
        then header ++ entries (bodies (older ++ recent))
        else trim_space header ++ (codes "\n\n" ++ join (with_marks (bodies recent)) (codes "\n")))
tail_log-bodies header older recent h k =
    let all : AllBodies (bodies older ++ bodies recent) =
      rw (sym (bodies-append older recent)) (bodies-AllBodies (older ++ recent) k) in
    rw (bodies-append older recent, sym (length-bodies recent), sym (length-bodies older))
      (tail_log_lem header (bodies older) (bodies recent) h all)

-- When every file can be written and the log appended to, and the log was a header without a mark
-- of an entry, then after a run of `Remember` on any inputs and replies, whatever marks these hold,
-- at times as their formats print them, `tailLog` with a limit of as many entries as `recent` has
-- finds the entries of exactly these last conversations behind the trimmed header, or, when there
-- are no others, the whole log.
pub remember_all-tail_log :
    (fs : FileSystem) (older recent : List Conversation) (disk : Disk)
    → ((path : Text) → fs.write path ≡ complete)
    → fs.append log_at ≡ complete
    → contains (logged disk ++ codes "\n## ") separator ≡ false
    → AllPrinted (older ++ recent)
    → let log = logged (remember_all fs (older ++ recent) disk) in
      tail_log log (length recent) ≡ (
        if length older == 0
        then log
        else trim_space (logged disk)
          ++ (codes "\n\n" ++ join (with_marks (bodies recent)) (codes "\n")))
remember_all-tail_log fs older recent disk page append h k =
    rw (remember_all-logged fs (older ++ recent) disk page append)
      (tail_log-bodies (logged disk) older recent h k)
