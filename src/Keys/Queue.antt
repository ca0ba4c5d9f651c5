-- ===== src/Keys/Queue.antt =====
-- wait_int_dev/sleep_module.c: the ring as a queue.
use raspberrypimodules.Prelude.{
  subst, ℕ, zero, suc, ◌+◌, ◌-◌, ◌≤◌, ◌<◌, ◌≡◌, ◌≢◌, refl, sym, ◌∙◌, ap, Bool, true, false, List,
  [], ◌∷◌, ◌++◌, arith, ◌==◌, ltb, if◌then◌else◌, length, set, get_or, length-set,
}
use raspberrypimodules.Prelude.Errno.{Ret, Errno}
use raspberrypimodules.Prelude.Int.{ℤ}
use raspberrypimodules.Keys.Device.{State, Outcome, step, letter, hello_keys_isr, my_dev_read}

-- Both indices are inside the buffer.
pub record Sound (s : State) : Type 0 where
  pub size : length s.hello_keys_buf ≡ 256
  pub rd_in : s.buf_rd < 256
  pub wr_in : s.buf_wr < 256

-- How many places the writer is ahead.
abbrev pub ahead : ℕ → ℕ → ℕ
ahead rd wr = if ltb wr rd then wr + 256 - rd else wr - rd

-- n states from the place rd on.
abbrev pub states : ℕ → ℕ → List ℕ → List ℕ
states zero rd buf = []
states (suc n) rd buf = get_or buf rd 0 ∷ states n (step rd) buf

-- What waits to be read, the oldest first.
abbrev pub queue : State → List ℕ
queue s = states (ahead s.buf_rd s.buf_wr) s.buf_rd s.hello_keys_buf

get_or-set : (l : List ℕ) (i v : ℕ) → i < length l → get_or (set l i v) i 0 ≡ v
get_or-set [] i v h = absurd (omega arith)
get_or-set (x ∷ l) zero v h = refl
get_or-set (x ∷ l) (suc i) v h = get_or-set l i v (omega arith)

get_or-set_other : (l : List ℕ) (i j v : ℕ) → i ≢ j → get_or (set l i v) j 0 ≡ get_or l j 0
get_or-set_other [] i j v h = refl
get_or-set_other (x ∷ l) zero zero v h = absurd (h refl)
get_or-set_other (x ∷ l) zero (suc j) v h = refl
get_or-set_other (x ∷ l) (suc i) zero v h = refl
get_or-set_other (x ∷ l) (suc i) (suc j) v h = get_or-set_other l i j v λ e. h (ap suc e)

ahead-step :
    (n rd wr : ℕ)
    → rd < 256
    → wr < 256
    → suc n ≤ ahead rd wr
    → (n ≤ ahead (step rd) wr) × (wr ≢ rd) × (step rd < 256)
ahead-step n rd wr r w h = (ground arith, ground arith, ground arith)

-- A write where the writer stands leaves the states in front of it.
states-set :
    (n rd wr : ℕ) (buf : List ℕ) (v : ℕ)
    → rd < 256
    → wr < 256
    → n ≤ ahead rd wr
    → states n rd (set buf wr v) ≡ states n rd buf
states-set zero rd wr buf v r w h = refl
states-set (suc n) rd wr buf v r w h =
    let (le, ne, inside) = ahead-step n rd wr r w h in
    ap (λ x. x ∷ states n (step rd) (set buf wr v)) (get_or-set_other buf wr rd v ne)
    ∙ ap (λ l. get_or buf rd 0 ∷ l) (states-set n (step rd) wr buf v inside w le)

ahead-suc :
    (n rd wr : ℕ)
    → rd < 256
    → wr < 256
    → ahead rd wr ≡ suc n
    → (ahead (step rd) wr ≡ n) × (step rd < 256)
ahead-suc n rd wr r w h = (ground arith, ground arith)

-- One state more, at the place of the writer.
states_snoc :
    (n rd wr : ℕ) (buf : List ℕ)
    → rd < 256
    → wr < 256
    → ahead rd wr ≡ n
    → states (suc n) rd buf ≡ states n rd buf ++ (get_or buf wr 0 ∷ [])
states_snoc zero rd wr buf r w h =
    let same : rd ≡ wr = ground arith in ap (λ i. get_or buf i 0 ∷ []) same
states_snoc (suc n) rd wr buf r w h =
    let (e, inside) = ahead-suc n rd wr r w h in
    ap (λ l. get_or buf rd 0 ∷ l) (states_snoc n (step rd) wr buf inside w e)

ahead_room :
    (rd wr : ℕ) → rd < 256 → wr < 256 → ahead rd wr < 255 → ahead rd (step wr) ≡ suc (ahead rd wr)
ahead_room rd wr r w h = ground arith

ahead_full : (rd wr : ℕ) → rd < 256 → wr < 256 → ahead rd wr ≡ 255 → ahead rd (step wr) ≡ 0
ahead_full rd wr r w h = ground arith

step_in : (i : ℕ) → i < 256 → step i < 256
step_in i h = ground arith

pub length-queue : (s : State) → length (queue s) ≡ ahead s.buf_rd s.buf_wr
length-queue s = length-states (ahead s.buf_rd s.buf_wr) s.buf_rd s.hello_keys_buf
  where
    length-states : (n rd : ℕ) (buf : List ℕ) → length (states n rd buf) ≡ n
    length-states zero rd buf = refl
    length-states (suc n) rd buf = ap suc (length-states n (step rd) buf)

pub hello_keys_isr-Sound : (val : ℤ) (s : State) → Sound s → Sound (hello_keys_isr val s)
unfolding hello_keys_isr
hello_keys_isr-Sound val s i = record {
  size = length-set s.hello_keys_buf s.buf_wr (letter val) ∙ i.size;
  rd_in = i.rd_in;
  wr_in = step_in s.buf_wr i.wr_in;
}

-- With fewer than 255 states waiting, the interrupt handler puts the new one behind them.
pub hello_keys_isr-queue :
    (val : ℤ) (s : State)
    → Sound s
    → length (queue s) < 255
    → queue (hello_keys_isr val s) ≡ queue s ++ (letter val ∷ [])
unfolding hello_keys_isr
hello_keys_isr-queue val s i few =
    let n = ahead s.buf_rd s.buf_wr in
    let new = set s.hello_keys_buf s.buf_wr (letter val) in
    let room : n < 255 = subst (λ m. m < 255) (length-queue s) few in
    ap (λ k. states k s.buf_rd new) (ahead_room s.buf_rd s.buf_wr i.rd_in i.wr_in room)
    ∙ states_snoc n s.buf_rd s.buf_wr new i.rd_in i.wr_in refl
    ∙ ap (λ l. l ++ (get_or new s.buf_wr 0 ∷ []))
        (states-set n s.buf_rd s.buf_wr s.hello_keys_buf (letter val) i.rd_in i.wr_in (omega arith))
    ∙ ap (λ x. queue s ++ (x ∷ []))
        (get_or-set s.hello_keys_buf s.buf_wr (letter val) (omega (arith, i.size, i.wr_in)))

-- With 255 states waiting, the interrupt handler empties the queue: the 255 and the new one are lost.
hello_keys_isr-full :
    (val : ℤ) (s : State) → Sound s → length (queue s) ≡ 255 → queue (hello_keys_isr val s) ≡ []
unfolding hello_keys_isr
hello_keys_isr-full val s i full =
    ap (λ k. states k s.buf_rd (set s.hello_keys_buf s.buf_wr (letter val)))
      (ahead_full s.buf_rd s.buf_wr i.rd_in i.wr_in (sym (length-queue s) ∙ full))

apart : (rd wr n : ℕ) → ahead rd wr ≡ suc n → (wr == rd) ≡ false
apart rd wr n h = ground arith

together : (rd wr : ℕ) → rd < 256 → wr < 256 → ahead rd wr ≡ 0 → (wr == rd) ≡ true
together rd wr r w h = ground arith

-- With nothing in the queue a read sleeps, or returns -ERESTARTSYS on a signal.
pub my_dev_read-empty :
    (signal copied : Bool) (s : State)
    → Sound s
    → queue s ≡ []
    → my_dev_read signal copied s
      ≡ (if signal then Outcome.returns (Ret.error Errno.erestartsys) [] 0 s else Outcome.sleeps)
unfolding my_dev_read
my_dev_read-empty signal copied s i h =
    let none_ahead : ahead s.buf_rd s.buf_wr ≡ 0 = sym (length-queue s) ∙ ap length h in
    let same : (s.buf_wr == s.buf_rd) ≡ true =
      together s.buf_rd s.buf_wr i.rd_in i.wr_in none_ahead in
    rw same refl

taken :
    (n : ℕ) (signal : Bool) (s : State)
    → Sound s
    → ahead s.buf_rd s.buf_wr ≡ suc n
    → let t : State = record s { buf_rd = step s.buf_rd } in
      (my_dev_read signal true s
        ≡ Outcome.returns (Ret.value 2) (get_or s.hello_keys_buf s.buf_rd 0 ∷ 10 ∷ []) 1 t)
      × Sound t
      × (queue s ≡ get_or s.hello_keys_buf s.buf_rd 0 ∷ queue t)
unfolding my_dev_read
taken n signal s i h =
    let ne : (s.buf_wr == s.buf_rd) ≡ false = apart s.buf_rd s.buf_wr n h in
    let (less, inside) = ahead-suc n s.buf_rd s.buf_wr i.rd_in i.wr_in h in
    (
      rw ne refl,
      record { size = i.size; rd_in = inside; wr_in = i.wr_in },
      ap (λ k. states k s.buf_rd s.hello_keys_buf) h
          ∙ ap (λ k. get_or s.hello_keys_buf s.buf_rd 0 ∷ states k (step s.buf_rd) s.hello_keys_buf)
              (sym less),
    )

-- A read that succeeds takes the oldest state off the queue and returns it with a line feed.
pub my_dev_read-queue :
    (x : ℕ) (rest : List ℕ) (signal : Bool) (s : State)
    → Sound s
    → queue s ≡ x ∷ rest
    → (t : State) × (my_dev_read signal true s ≡ Outcome.returns (Ret.value 2) (x ∷ 10 ∷ []) 1 t)
      × Sound t
      × (queue t ≡ rest)
my_dev_read-queue x rest signal s i h =
    let n : ahead s.buf_rd s.buf_wr ≡ suc (length rest) = sym (length-queue s) ∙ ap length h in
    let (e, sound, q) = taken (length rest) signal s i n in
    let t : State = record s { buf_rd = step s.buf_rd } in
    let whole : get_or s.hello_keys_buf s.buf_rd 0 ∷ queue t ≡ x ∷ rest = sym q ∙ h in
    let first : get_or s.hello_keys_buf s.buf_rd 0 ≡ x = cc in
    let others : queue t ≡ rest = cc in
    (
      record s { buf_rd = step s.buf_rd },
      e
          ∙ ap
              (λ y.
                Outcome.returns (Ret.value 2) (y ∷ 10 ∷ []) 1 (record s { buf_rd = step s.buf_rd }))
              first,
      sound,
      others,
    )
