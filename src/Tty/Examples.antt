-- ===== src/Tty/Examples.antt =====
-- The theorems at a terminal in the usual mode, and runs of the code.
use asterisk.Base.{
  ℕ, ◌≡◌, refl, arith, true, List, [], ◌∷◌, pos, set, replicate, length-replicate, some,
}
use asterisk.FifoBuffer.{FifoBuffer, fifobuffer_get_free}
use asterisk.FifoBuffer
use asterisk.FifoBuffer.Contents.{contents}
use asterisk.Tty.{Termios, TtyDev, Event, override_character_master_write, master_write}
use asterisk.Tty.Read.{
  SlaveRead, MasterRead, nonblock, slave_read_try-SlaveRead, master_read_try-MasterRead,
}
use asterisk.Tty.Programs.{
  slave_write, slave_read_try, master_read_try, ttydev_master_read_nonblock,
}
use asterisk.Tty.Bounds.{IsValid, Written, master_write-Written}
use asterisk.Tty.Line.{Newline, AllPlain}
use asterisk.Tty.Deliver.{Delivered, master_write-Delivered}
use asterisk.Tty.Blank.{master_write-blank}
use asterisk.Tty.Output.{translate, translate_all, slave_write-translate_all}

abbrev bytes_free : FifoBuffer
bytes_free = record {
  bytes = replicate 16 0;
  capacity = 16;
  used_bytes = 0;
  read_index = 0;
  write_index = 0;
}

bytes_free-IsValid : FifoBuffer.Valid.IsValid bytes_free
bytes_free-IsValid = omega arith

-- ICRNL, ONLCR, and ISIG, ICANON and ECHO
abbrev usual : Termios
usual = record {
  c_iflag = 256;
  c_oflag = 4;
  c_lflag = 11;
  c_cc = 3 ∷ 28 ∷ 127 ∷ 0 ∷ 0 ∷ 0 ∷ 1 ∷ 0 ∷ 0 ∷ 0 ∷ 26 ∷ [];
}

abbrev terminal : TtyDev
terminal = record {
  winsize = record { ws_row = 25; ws_col = 80; ws_xpixel = 0; ws_ypixel = 0 };
  foreground_process = pos 4;
  term = usual;
  buffer_master_write = bytes_free;
  buffer_master_read = bytes_free;
  buffer_echo = bytes_free;
  line_buffer = replicate 4096 0;
  line_buffer_index = 0;
  has_ready_callback = true;
}

terminal-IsValid : IsValid terminal
terminal-IsValid = record {
  line = length-replicate {A = ℕ} 4096 0;
  index = omega arith;
  input = bytes_free-IsValid;
  output = bytes_free-IsValid;
  echoed = bytes_free-IsValid;
}

master_write-Written_example : Written (master_write terminal (b'a' ∷ 3 ∷ 127 ∷ []))
master_write-Written_example = master_write-Written terminal (b'a' ∷ 3 ∷ 127 ∷ []) terminal-IsValid

plain_ls : AllPlain usual (b'l' ∷ b's' ∷ [])
unfolding override_character_master_write
plain_ls = ((refl, refl, refl, refl), ((refl, refl, refl, refl), tt))

return_key : Newline usual b'\r'
unfolding override_character_master_write
return_key = (refl, refl)

master_write-Delivered_example :
    Delivered terminal (b'l' ∷ b's' ∷ []) (master_write terminal (b'l' ∷ b's' ∷ b'\r' ∷ []))
unfolding fifobuffer_get_free
master_write-Delivered_example =
    master_write-Delivered terminal b'l' (b's' ∷ []) b'\r' terminal-IsValid refl plain_ls return_key
      refl (omega arith) (omega arith)

slave_write-translate_all_example :
    let (r, tty', _) = slave_write terminal (b'o' ∷ b'k' ∷ b'\n' ∷ []) in
    (r ≡ pos 3)
    × (contents tty'.buffer_master_read ≡ translate_all usual.c_oflag (b'o' ∷ b'k' ∷ b'\n' ∷ []))
    × FifoBuffer.Valid.IsValid tty'.buffer_master_read
unfolding fifobuffer_get_free translate_all translate
slave_write-translate_all_example =
    slave_write-translate_all terminal b'o' (b'k' ∷ b'\n' ∷ []) bytes_free-IsValid (omega arith)
      (omega arith)

master_write-blank_example :
    (tty' : TtyDev) × (events : List Event) × (master_write terminal (b'\r' ∷ [])
      ≡ some (pos 0, tty', events))
    × (tty'.buffer_master_write ≡ bytes_free)
unfolding fifobuffer_get_free
master_write-blank_example =
    master_write-blank terminal b'\r' terminal-IsValid refl return_key refl (omega arith)

abbrev three_bytes : FifoBuffer
three_bytes = record bytes_free {
  bytes = set (set (replicate 16 0) 15 b'h') 0 b'i';
  used_bytes = 3;
  read_index = 15;
  write_index = 2;
}

three_bytes-IsValid : FifoBuffer.Valid.IsValid three_bytes
three_bytes-IsValid = omega arith

slave_read_try-SlaveRead_example :
    let tty = record terminal { buffer_master_write = three_bytes } in
    SlaveRead tty 2 (slave_read_try tty 2)
slave_read_try-SlaveRead_example =
    slave_read_try-SlaveRead (record terminal { buffer_master_write = three_bytes }) 2
      three_bytes-IsValid (omega arith)

master_read_try-MasterRead_example :
    let tty = record terminal { buffer_master_read = three_bytes } in
    MasterRead tty 2 (master_read_try tty 2)
    × (ttydev_master_read_nonblock tty true 2 ≡ nonblock (master_read_try tty 2))
master_read_try-MasterRead_example =
    master_read_try-MasterRead (record terminal { buffer_master_read = three_bytes }) 2
      three_bytes-IsValid (omega arith)
