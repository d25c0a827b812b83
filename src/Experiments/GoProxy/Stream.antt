-- ===== src/Experiments/GoProxy/Stream.antt =====
-- FileStream and TeeReadCloser of experiments/goproxy: a body is written to a file while it is read,
-- and the file is created by the first write.
use httptap.Shared.{
  ℕ, ◌≡◌, refl, ap, sym, ◌∙◌, Bool, true, false, if◌then◌else◌, Option, none, some, List, [], ◌∷◌,
  ◌++◌, Text, Error, error, ap₂, ◌↔◌,
}
use httptap.System.{Trace, Event, Os}
use httptap.Packet.{Bytes}

pub data StreamCall : Type 0 where
  create : Text → StreamCall
  write_file : Bytes → StreamCall
  close_file : StreamCall

-- FileStream: whether its file is there, and all calls that it has made.
pub record FileStream : Type 0 where
  pub path : Text
  pub open_file : Bool
  pub calls : Trace StreamCall

abbrev pub new_file_stream : Text → FileStream
new_file_stream path = record { path = path; open_file = false; calls = [] }

-- What answers the calls: an error or none, and how much a write has written.
pub record Disk : Type 0 where
  pub answer : Os StreamCall
  pub count : Trace StreamCall → Bytes → ℕ

module _ (d : Disk) where
  abbrev called : StreamCall → FileStream → FileStream
  called c fs = record fs { calls = fs.calls ++ (c, d.answer fs.calls c) ∷ [] }

  abbrev write_open : Bytes → FileStream → FileStream × ℕ × Option Error
  write_open b fs = (called (write_file b) fs, d.count fs.calls b, d.answer fs.calls (write_file b))

  abbrev write_created : Bytes → FileStream → Option Error → FileStream × ℕ × Option Error
  write_created b fs (some e) = (fs, 0, some e)
  write_created b fs none = write_open b (record fs { open_file = true })

  unfoldable pub write : Bytes → FileStream → FileStream × ℕ × Option Error
  write b fs =
      if fs.open_file
      then write_open b fs
      else write_created b (called (create fs.path) fs) (d.answer fs.calls (create fs.path))

  abbrev close_if : Bool → FileStream → FileStream × Option Error
  close_if true fs = (called close_file fs, d.answer fs.calls close_file)
  close_if false fs = (fs, some (error "FileStream was never written into"))

  unfoldable pub close : FileStream → FileStream × Option Error
  close fs = close_if fs.open_file fs

  -- TeeReadCloser, where what has been read is `b`: io.TeeReader writes it, and returns the error
  -- of the write, if any, and else that of the read.
  abbrev first_error : Option Error → Option Error → Option Error
  first_error (some e) other = some e
  first_error none other = other

  unfoldable pub tee_read : Bytes → Option Error → FileStream → FileStream × Option Error
  unfolding write
  tee_read [] read_error fs = (fs, read_error)
  tee_read (x ∷ b) read_error fs =
      let (fs', n, e) = write (x ∷ b) fs in (fs', first_error e read_error)

  -- Close of TeeReadCloser, where the closing of the reader is answered by `read_close`.
  unfoldable tee_close : Option Error → FileStream → FileStream × Option Error
  unfolding close
  tee_close read_close fs = let (fs', e) = close fs in (fs', first_error read_close e)

-- A use of a stream.
pub data Use : Type 0 where
  reads : Bytes → Option Error → Use
  closes : Option Error → Use

unfoldable pub uses : Disk → List Use → FileStream → FileStream
unfolding tee_read tee_close
uses d [] fs = fs
uses d (reads b e ∷ us) fs = uses d us (tee_read d b e fs).0
uses d (closes e ∷ us) fs = uses d us (tee_close d e fs).0

-- What a file of the disk allows: it can be created while it is not there, and then be written to
-- and closed. `none` is a call that is not allowed, else whether the file is there afterwards.
abbrev allowed : Bool → Event StreamCall → Option Bool
allowed false (create path, none) = some true
allowed false (create path, some e) = some false
allowed false _ = none
allowed true (create path, a) = none
allowed true _ = some true

abbrev continued : (Bool → Option Bool) → Option Bool → Option Bool
continued next none = none
continued next (some there) = next there

abbrev replay : Bool → Trace StreamCall → Option Bool
replay there [] = some there
replay there (e ∷ tr) = continued (λ b. replay b tr) (allowed there e)

replay-append :
    (there : Bool) (t : Trace StreamCall) (e : Event StreamCall)
    → replay there (t ++ e ∷ []) ≡ continued (λ b. allowed b e) (replay there t)
replay-append there [] e = ended (allowed there e)
  where
    ended : (o : Option Bool) → continued (λ b. some b) o ≡ o
    ended none = refl
    ended (some b) = refl
replay-append there (x ∷ t) e = go (λ b. replay-append b t e) (allowed there x)
  where
    go :
        ((b : Bool) → replay b (t ++ e ∷ []) ≡ continued (λ c. allowed c e) (replay b t))
        → (o : Option Bool)
        → continued (λ b. replay b (t ++ e ∷ [])) o
          ≡ continued (λ b. allowed b e) (continued (λ b. replay b t) o)
    go ih none = refl
    go ih (some b) = ih b

abbrev IsLazy : FileStream → Type 0
IsLazy fs = replay false fs.calls ≡ some fs.open_file

module _ (d : Disk) where
  after_call :
      (fs : FileStream) (c : StreamCall)
      → IsLazy fs
      → replay false (fs.calls ++ (c, d.answer fs.calls c) ∷ [])
        ≡ allowed fs.open_file (c, d.answer fs.calls c)
  after_call fs c h =
      replay-append false fs.calls (c, d.answer fs.calls c)
      ∙ ap (continued (λ b. allowed b (c, d.answer fs.calls c))) h

  -- A call on a file that is there, and one on a file that is missing.
  write_open-IsLazy :
      (b : Bytes) (fs : FileStream) → fs.open_file ≡ true → IsLazy fs → IsLazy (write_open d b fs).0
  write_open-IsLazy b fs e h =
      after_call fs (write_file b) h
      ∙ ap (λ o. allowed o (write_file b, d.answer fs.calls (write_file b))) e
      ∙ ap (λ o. some o) (sym e)

  write_created-IsLazy :
      (b : Bytes) (fs : FileStream) (a : Option Error)
      → fs.open_file ≡ false
      → d.answer fs.calls (create fs.path) ≡ a
      → IsLazy fs
      → IsLazy (write_created d b (called d (create fs.path) fs) a).0
  write_created-IsLazy b fs none m e h =
      write_open-IsLazy b (record (called d (create fs.path) fs) { open_file = true }) refl
        (after_call fs (create fs.path) h ∙ ap₂ (λ o a. allowed o (create fs.path, a)) m e)
  write_created-IsLazy b fs (some x) m e h =
      after_call fs (create fs.path) h
      ∙ ap₂ (λ o a. allowed o (create fs.path, a)) m e
      ∙ ap (λ o. some o) (sym m)

  write-IsLazy : (b : Bytes) (fs : FileStream) → IsLazy fs → IsLazy (write d b fs).0
  unfolding write
  write-IsLazy b fs h = chosen fs.open_file refl
    where
      chosen :
          (o : Bool)
          → fs.open_file ≡ o
          → IsLazy
              (if o
                then write_open d b fs
                else write_created d b
                    (called d (create fs.path) fs)
                    (d.answer fs.calls (create fs.path))).0
      chosen true e = write_open-IsLazy b fs e h
      chosen false e = write_created-IsLazy b fs _ e refl h

  close-IsLazy : (fs : FileStream) → IsLazy fs → IsLazy (close d fs).0
  unfolding close
  close-IsLazy fs h = chosen fs.open_file refl
    where
      chosen : (o : Bool) → fs.open_file ≡ o → IsLazy (close_if d o fs).0
      chosen true e =
          after_call fs close_file h
          ∙ ap (λ o. allowed o (close_file, d.answer fs.calls close_file)) e
          ∙ ap (λ o. some o) (sym e)
      chosen false e = h

  -- However a body is read through the stream and closed, and whatever the disk answers, the file
  -- is created only while it is not there, so at most once, and it is written to and closed only
  -- after that: the trace of the calls is one that the disk allows.
  uses-IsLazy : (us : List Use) (fs : FileStream) → IsLazy fs → IsLazy (uses d us fs)
  unfolding uses tee_read tee_close
  uses-IsLazy [] fs h = h
  uses-IsLazy (reads [] e ∷ us) fs h = uses-IsLazy us fs h
  uses-IsLazy (reads (x ∷ b) e ∷ us) fs h = uses-IsLazy us _ (write-IsLazy (x ∷ b) fs h)
  uses-IsLazy (closes e ∷ us) fs h = uses-IsLazy us _ (close-IsLazy fs h)

  -- Close of the reader that is teed reports an error if one of the two closings fails, and not, as
  -- its comment has it, only if both do.
  tee_close_reports :
      (read_close : Option Error) (fs : FileStream)
      → ((tee_close d read_close fs).1 ≡ none) ↔ ((read_close ≡ none) × ((close d fs).1 ≡ none))
  unfolding tee_close
  tee_close_reports none fs = (λ h. (refl, h), λ h. h.1)
  tee_close_reports (some e) fs = (λ h. (h, absurd (cc)), λ h. h.0)
