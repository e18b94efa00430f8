-- ===== src/Tty/Control.antt =====
-- kernel/ttydev.c: `slave_ioctl`, which reads and sets the modes of a terminal.
use asterisk.Base.{ℤ, pos, neg, ◌≡◌, refl, Bool, true, false, if◌then◌else◌, if_both}
use asterisk.Tty.{TtyDev, Termios, Winsize}

-- The values of `request` by name; `tcsets` stands for TCSETS, TCSETSW and TCSETSF.
pub data Request : Type 0 where
  tiocgpgrp tiocspgrp tiocgwinsz tiocswinsz tcgets tcsets unknown : Request

-- What is at `argp`, read as each of the types.
pub record Argument : Type 0 where
  pub group : ℤ
  pub window : Winsize
  pub modes : Termios

-- What a known request does to the device and the argument.
abbrev pub serve : Request → TtyDev → Argument → TtyDev × Argument
serve tiocgpgrp tty argp = (tty, record argp { group = tty.foreground_process })
serve tiocspgrp tty argp = (record tty { foreground_process = argp.group }, argp)
serve tiocgwinsz tty argp = (tty, record argp { window = tty.winsize })
serve tiocswinsz tty argp = (record tty { winsize = argp.window }, argp)
serve tcgets tty argp = (tty, record argp { modes = tty.term })
serve tcsets tty argp = (record tty { term = argp.modes }, argp)
serve unknown tty argp = (tty, argp)

abbrev is_known : Request → Bool
is_known unknown = false
is_known _ = true

-- `own` says that the terminal is the one of the calling process, and `accessible` is
-- `check_user_access(argp)`.
unfoldable pub slave_ioctl :
    TtyDev → (own : Bool) → Request → (accessible : Bool) → Argument → ℤ × TtyDev × Argument
slave_ioctl tty own request accessible argp =
    if own
    then (if is_known request
        then (if accessible
            then (let (tty', argp') = serve request tty argp in (pos 0, tty', argp'))
            else (neg 14, tty, argp))
        else (pos 0, tty, argp))
    else (neg 25, tty, argp)

-- What is set with `argp` is what is then read into `buffer`, and nothing else has changed; a
-- caller that may not, or with a bad pointer, changes nothing.
pub record Sets (tty : TtyDev) (argp buffer : Argument) : Type 0 where
  pub group :
      let (r, tty', _) = slave_ioctl tty true tiocspgrp true argp in
      (r ≡ pos 0)
      × (slave_ioctl tty' true tiocgpgrp true buffer ≡ (
        pos 0,
        record tty { foreground_process = argp.group },
        record buffer { group = argp.group },
      ))
  pub window :
      let (r, tty', _) = slave_ioctl tty true tiocswinsz true argp in
      (r ≡ pos 0)
      × (slave_ioctl tty' true tiocgwinsz true buffer
          ≡ (pos 0, record tty { winsize = argp.window }, record buffer { window = argp.window }))
  pub modes :
      let (r, tty', _) = slave_ioctl tty true tcsets true argp in
      (r ≡ pos 0)
      × (slave_ioctl tty' true tcgets true buffer
          ≡ (pos 0, record tty { term = argp.modes }, record buffer { modes = argp.modes }))
  pub foreign :
      (request : Request) (accessible : Bool)
      → slave_ioctl tty false request accessible argp ≡ (neg 25, tty, argp)
  pub bad_pointer :
      (request : Request)
      → ((slave_ioctl tty true request false argp).1 ≡ tty)
        × ((slave_ioctl tty true request false argp).2 ≡ argp)

-- For every terminal and argument: the group, the window size and the modes that `slave_ioctl` sets
-- are those that it then reads, each setting changes nothing else, and a call on a terminal of
-- another process or with an argument that is not accessible changes nothing.
pub slave_ioctl-Sets : (tty : TtyDev) (argp buffer : Argument) → Sets tty argp buffer
unfolding slave_ioctl
slave_ioctl-Sets tty argp buffer = record {
  group = (refl, refl);
  window = (refl, refl);
  modes = (refl, refl);
  foreign = λ request accessible. refl;
  bad_pointer = λ request.
      if_both (λ (out : ℤ × TtyDev × Argument). (out.1 ≡ tty) × (out.2 ≡ argp)) (is_known request)
        (refl, refl) (refl, refl);
}
