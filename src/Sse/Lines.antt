-- ===== src/Sse/Lines.antt =====
-- `_take_line`: a line that is complete does not change when more bytes arrive.
use buddy2api.Prelude.{◌<◌, ◌≡◌, Bool, true, false, some, [], ◌∷◌, ◌++◌, length, arith}
use buddy2api.Sse.{Bytes, scan, take_line}

scan-append :
    (line buffer more l r : Bytes)
    → scan false line buffer ≡ some (l, r)
    → scan false line (buffer ++ more) ≡ some (l, r ++ more)
unfolding scan
scan-append line [] more l r h = cc
scan-append line (b ∷ []) more l r h = ground (arith, scan-append (line ++ b ∷ []) [] more l r)
scan-append line (b ∷ c ∷ bs) more l r h =
    ground (arith, scan-append (line ++ b ∷ []) (c ∷ bs) more l r)

pub take_line-append :
    (buffer more l r : Bytes)
    → take_line false buffer ≡ some (l, r)
    → take_line false (buffer ++ more) ≡ some (l, r ++ more)
unfolding take_line
take_line-append buffer more l r h = ground (arith, scan-append [] buffer more l r)

scan-length :
    (final : Bool) (line buffer l r : Bytes)
    → scan final line buffer ≡ some (l, r)
    → length r < length buffer
unfolding scan
scan-length final line [] l r h = cc
scan-length final line (b ∷ []) l r h = ground (arith, scan-length final (line ++ b ∷ []) [] l r)
scan-length final line (b ∷ c ∷ bs) l r h =
    ground (arith, scan-length final (line ++ b ∷ []) (c ∷ bs) l r)

-- Taking a line uses up at least one byte of the buffer.
pub take_line-length :
    (final : Bool) (buffer l r : Bytes)
    → take_line final buffer ≡ some (l, r)
    → length r < length buffer
unfolding take_line
take_line-length true [] l r h = cc
take_line-length false [] l r h = cc
take_line-length true (b ∷ bs) l r h = ground (arith, scan-length true [] (b ∷ bs) l r)
take_line-length false (b ∷ bs) l r h = ground (arith, scan-length false [] (b ∷ bs) l r)
