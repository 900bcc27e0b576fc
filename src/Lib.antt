-- ===== src/Lib.antt =====
-- A model of MinimalistOS, a small i386 kernel in C, and proofs about its parts.
--
-- The kernel is a set of static tables with functions on them; interrupts aside, the parts meet only
-- by calls: the schedulers and drivers use the page allocator and the heap, the file system asks the
-- heap for its blocks, and names are compared and stored by the string routines. Each part is a
-- module here. Its static variables are the fields of a record, and each C function is a function on
-- that record with the same name, which returns the C result beside the new state.
--
--   CString     kernel/string.c: strings are lists of bytes with a terminator; itoa in CString/Itoa
--   Network     kernel/network.c, include/network.h: the ring of 32 packets
--   CharDevice  drivers/char_device.c: the ring of 1024 bytes behind the character device
--   Ipc         kernel/ipc.c, include/ipc.h: the message queue
--   Memory      kernel/memory.c, include/memory.h: pages, the kernel heap and the page tables
--   Power       kernel/power.c, include/power.h: power states, the battery, the clock and the fan
--   Security    kernel/security.c, include/security.h: users, rights and the access control list
--   Process     kernel/process.c, kernel/process.h: the process table and the scheduler
--   RamFs       fs/ramfs.c, include/filesystem.h: the files in memory
--   Monitor     kernel/monitor.c, include/monitor.h: the log, the statistics and the timers
--   Vfs         fs/vfs_simple.c: the file descriptors of the kernel's virtual file system
--   Loader      kernel/program_loader.c, include/program_loader.h: the memory for programs and the
--               ELF loader
--   Devices     kernel/device.c, include/device.h: the linked list of devices
--   Keyboard    drivers/keyboard.c: the scancode handler and the buffer of characters
--   Vga         drivers/vga.c, drivers/vga.h: the text screen and its cursor
--   Log         kernel/log.c, kernel/log.h: the formatted messages
--   Syscall     kernel/syscall.c, include/syscall.h: the system calls over all these parts
--   Ports       kernel/io.h: port input and output, as the drivers below use it
--   Serial      drivers/serial.c: the serial line and the numbers sent over it
--   Interrupts  kernel/idt.c, include/idt.h: the gates, the interrupt controllers and the handlers
--   Timer       drivers/timer.c: the timer; in Timer/Irq the interrupts of the timer, the keyboard and
--               the mouse, which come in on the 16 lines by way of `irq_handler` and act on the parts
--   Mouse       drivers/mouse.c: the packets of the mouse and its pointer
--   KeyboardIntl  drivers/keyboard_intl.c: a keyboard with a choice of layouts
--   BlockDevice  drivers/block_device.c: a block device in a page of Memory, registered with Devices
--   BlockFs     fs/filesystem_enhanced.c, include/filesystem.h: the file system in blocks
--   Shell       kernel/shell.c, include/shell.h: the line editor and the commands of the shell
--   Pci         kernel/pci.c, include/pci.h: the search for a device on the bus
--   NetCore     kernel/net_core.c, include/net.h, drivers/net_ne2k.c: the network devices
--   Base        what they share: arrays (Lists), rings (Circular), bits of words and allocation
--               bitmaps (Bits, Bitmap), table searches (Search), alignment (Align), copies into the
--               middle of an array (Copy), facts decided over a range (Finite), and C's int results
--               (Int)
--
-- Conventions. An unsigned variable is a natural number; a sum that can leave 32 bits is taken modulo
-- 2 ^ 32, as in the size test of `kmalloc`, the tick counters and the offsets of the file system. A C
-- `int` result is an integer; 0 is `success` and -1 `failure`. A pointer that may be null is an
-- option, and where only its being null matters, a Boolean. A pointer into a table is an index. An
-- array is a list: a read out of bounds gives a stated default and a write out of bounds does
-- nothing, and the theorems have hypotheses on the lengths wherever an access could be out of bounds.
-- An output parameter is part of the result.
--
-- Loops over a table take the number of rounds left as an argument, which the caller sets to the
-- bound of the C loop. The search of the scheduler takes the 8 attempts of its loop, which visit
-- every entry since `next_pid` is at most 8. The loops along the list of devices have no bound
-- in C: they take `max_pages` rounds, and since each device lies in a used page of its own and page 0
-- holds none, a list has fewer devices than that. The two loops of `itoa` take 32 rounds, since a
-- number of 32 bits has at most 32 digits in any base.
--
-- What the hardware answers at a port is not known to the kernel. It is a function of the port and of
-- the number of accesses before, and the writes are kept in their order. The serial line polls at most 100001 times for a byte, as the source does, and the
-- loop of `serial_decimal` takes 10 rounds, enough for the digits of 32 bits. A wait that has no bound in C takes the number
-- of its polls, or the list of what it reads, and is still waiting at the end. The PCI configuration
-- space is a function of the address, and the search takes its 32 devices of 8 functions.
--
-- Where parts meet by pointers, the model has a parameter: the loader works on any file system with
-- the four calls of `FileOps`, of which Vfs is the one that the kernel has, and the operations of a
-- device driver are functions on a type of driver states. A device registers in a page of Memory, and
-- a program is started in the table of Process. The system calls work on one record that holds the
-- state of each part; the memory behind their pointer arguments is a parameter, what they store
-- through a pointer, and where, is part of the result. The source does not test these pointers, so a
-- store can hit the kernel itself: in Syscall/Stores the place of the kernel's memory, and what a store
-- there does, is a parameter. A call that waits for the keyboard takes the list of
-- its polls, at whose end it is still waiting.
--
-- The handlers in the interrupt table and the network devices are values of a type that their users
-- choose. The shell takes the list of the characters that are typed and gives the text it prints.
--
-- Not modelled: assembly (boot, context switch, the stubs of the interrupts, control registers, TLB),
-- whose effects outside the tables are left out, with `context_init` a parameter of `process_create`;
-- the calls that print messages, which would change the screen by way of Log; the set-up of the
-- controller in drivers/keyboard.c; the start of the kernel, which calls the set-up of each part in
-- turn; the test programs in the kernel; and fs/vfs.c, which `#if 0` disables and whose calls
-- fs/vfs_simple.c gives.
-- Pages and the heap hand out addresses, and what the memory there holds is an argument where it
-- matters.
pub mod Base
pub mod CString
pub mod Network
pub mod CharDevice
pub mod Ipc
pub mod Memory
pub mod Power
pub mod Security
pub mod Process
pub mod RamFs
pub mod Monitor
pub mod Vfs
pub mod Loader
pub mod Devices
pub mod Keyboard
pub mod Vga
pub mod Syscall
pub mod Log
pub mod Ports
pub mod Serial
pub mod Interrupts
pub mod Mouse
pub mod Timer
pub mod BlockDevice
pub mod BlockFs
pub mod KeyboardIntl
pub mod Shell
pub mod Pci
pub mod NetCore
