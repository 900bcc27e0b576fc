-- ===== src/Timer/Tests.antt =====
-- Interrupts of a machine whose drivers have registered their handlers, and a wait.
use minimalist_os.Base.{[], ◌∷◌, Option, none, some, false, pos, replicate}
use minimalist_os.Interrupts.{Interrupts, register_interrupt_handler}
use minimalist_os.Mouse.{Mouse}
use minimalist_os.Ports.{Ports}
use minimalist_os.Process.{process_init, zero_process}
use minimalist_os.Timer.Irq.Effect.{Effect}
use minimalist_os.Timer.Irq.{Handler, timer, keyboard, Machine}
use minimalist_os.Timer.{timer_init}

abbrev quiet : Ports
quiet = record { answers = λ port n. 0xFF; accesses = 0; written = [] }

abbrev no_handlers : Interrupts Handler
no_handlers = record { idt = []; limit = 0; base = 0; interrupt_handlers = replicate 256 none }

abbrev still_mouse : Mouse
still_mouse = record {
  packet = 0 ∷ 0 ∷ 0 ∷ [];
  packet_index = 0;
  mouse_x = pos 0;
  mouse_y = pos 0;
  mouse_buttons = 0;
}

-- The handlers as the kernel registers them when it starts, without the mouse.
registered : Interrupts Handler
registered = register_interrupt_handler 33 (some keyboard) ((timer_init timer no_handlers quiet).0)

abbrev empty : Option Handler
empty = none

abbrev machine : Machine
machine = record {
  interrupts = registered;
  ports = quiet;
  timer_ticks = 99;
  scheduler = process_init (record {
    processes = replicate 8 zero_process;
    next_pid = 0;
    current_process = 0;
    scheduler_ticks = 0;
    current_process_ptr = none;
  });
  keys = record {
    keys = record {
      shift_pressed = false;
      ctrl_pressed = false;
      alt_pressed = false;
      caps_lock = false;
      num_lock = false;
      scroll_lock = false;
    };
    kb_buffer = replicate 256 0;
    kb_write_ptr = 0;
    kb_read_ptr = 0;
  };
  pointer = still_mouse;
  screen = record {
    vga = replicate 2000 0;
    cursor_x = 0;
    cursor_y = 0;
    current_color = 7;
    cursor_start = 0;
    cursor_end = 15;
    hardware_pos = 0;
  };
}
