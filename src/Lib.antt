-- ===== src/Lib.antt =====
-- babyos: models of the kernel's components, each function beside the C++ function that it
-- translates, and the theorems that make the components correct.
--
-- The address space of a process (class vmm_t, src/vm.h and src/vm.cc) is modelled by Vm: the linked
-- list m_mmap is a list of areas, and the walks, merges and splits of find_vma, insert_vma,
-- get_unmapped_area, do_mmap, remove_vma and do_munmap are functions on it. Vm/View says what a
-- list of areas means, the protection and flags of each address; Vm/Insert, Vm/Find, Vm/Mmap,
-- Vm/Unmap and Vm/Release prove the operations against it. Vm/Fault models do_page_fault,
-- do_protection_fault and expand_stack. What the page table and mm_t answer for an address, and
-- what VMA_POOL returns, are arguments. Sums of uint32 wrap; the loop of free_page_range takes one
-- round of fuel for each page of its range and one more, which its theorem shows to be enough.
--
-- Physical memory (mm_t, src/mm.h and src/mm.cc) is modelled by Mm: the buddy allocator with its
-- free lists, its maps and the counts of the pages, as blocks numbered by size. Mm/Cover says what
-- the lists mean, how many free blocks a page lies in; Mm/Alloc, Mm/Free and Mm/Refs prove
-- alloc_pages and free_pages against it; the counts of pages are below 2^31. Their loops take one round for each order up to MAX_ORDER.
--
-- Semaphores (semaphore_t, src/sem.h and src/sem.cc) are modelled by Sem, an operation being a step
-- under the lock of the semaphore. Pipes (pipe_t, src/pipe.h and src/pipe.cc) are modelled by
-- Pipe: Pipe/Fifo lets readers and writers interleave where the code waits at a semaphore, of which
-- it keeps the number of downs that may return; Pipe/Stream is one process alone; Pipe/Close is
-- the end of a pipe. The buffers of sockets (sock_ring_buffer_t, src/sock_ring_buffer.cc) are
-- modelled by SockBuf. Ring holds what is common to circular buffers, Prelude the shared names.
--
-- Open files (file_t, file_table_t, m_files of process_t, and do_open, do_close and do_dup of
-- file_system_t; src/file.cc, src/file_table.cc, src/process.cc, src/fs.cc) are modelled by Files: the
-- inode that a path leads to is an argument, and what the last close releases is a result.
-- Files/Counts and Files/Open prove the reference counts.
--
-- The cache of disk blocks (block_dev_t and io_buffer_t, src/block_dev.cc, with what hd.cc does to a
-- buffer) is modelled by BlockDev, for one process at a time: a call of the cache is a lookup, a request
-- and a release, and BlockDev/Refine compares sequences of calls with a disk without a cache.
--
-- The file system (file_system_t and inode_t, src/fs.cc and src/inode.cc) is modelled by Fs up to
-- read_inode and write_inode, on a disk without a cache: a function from block numbers to bytes. Fs/Bitmap, Fs/Alloc
-- and Fs/Free are the bitmap of blocks; Fs/Owner says which blocks a file has, and Fs/Fresh, Fs/Grown,
-- Fs/Direct and Fs/Map follow block_map; Fs/Read, Fs/Write, Fs/File and Fs/Written are the bytes of a file,
-- and Fs/Dinode the inodes on the disk. The loops over the bitmap and over the blocks of a
-- range take as many rounds as there are blocks to visit, which the theorems show to be enough. Devices answer
-- through an argument.
--
-- The cache of inodes (get_inode, src/fs.cc) is modelled by Inodes, and Inodes/Refs counts the references.
--
-- Paths (skip_elem and the loop of namei, src/fs.cc, with strcmp and strncpy of src/string.cc) are modelled by
-- Path: strings are lists of characters, and what finds an inode is an argument of the loop, which takes one round
-- for each name. Directories (dir_lookup up to get_inode, and dir_link, src/fs.cc) are modelled by Dir over
-- read_inode and write_inode of Fs, called with the lock of the directory held; Dir/Entry, Dir/Lookup, Dir/Change and Dir/Link are their proofs.
--
-- Linked lists (list_t, src/list.h) are modelled by LinkedList over a memory of nodes; the other files take the lists
-- that they model as sequences. LinkedList/Chain, Taken, Ends and Erase follow the links, and LinkedList/Refine compares
-- sequences of calls with sequences of elements. m_size does not wrap. Object
-- pools (object_pool_t, src/pool.cc), from which the nodes come, are modelled by ObjectPool, whose loop over a page takes
-- at most one round for each byte of it, for objects of four bytes at least; ObjectPool/Separate and ObjectPool/Run say that objects never overlap.
--
-- The network core (net_t, src/net.h and src/net.cc) is modelled by Net: byte order, addresses and
-- the Internet checksum, whose carry loop takes three rounds at most (Net/Checksum), and the pools of
-- network buffers (Net/Pool).
--
-- memmov, memcpy and memset (src/string.cc) are modelled by Mem on a memory that is a function,
-- and network buffers (net_buf_t, src/net_buf.h and src/net_buf.cc) over it by NetBuf. sprint_int (src/string.cc)
-- is modelled by Format, whose loop takes at most 32 rounds, the digits of a number of 32 bits in base 2.
--
-- TCP sockets (socket_stream_t, src/socket_stream.cc, and tcp_t::transmit, src/tcp.cc) are modelled by Tcp: a
-- received segment is a step of a socket, and a call that sleeps at m_sem is cut there in two. Tcp/Calls are the
-- calls, Tcp/Transition the states, Tcp/Handshake, Tcp/Close and Tcp/Payload follow two sockets that are
-- connected with nothing between them, and Tcp/Ports is the choice of a port.
--
-- The way of a packet to its neighbour (ip_t::transmit, src/ip.cc, and arp_t, src/arp.cc) is modelled by Arp: an event is a
-- packet that goes out, an ARP packet that arrives or a timer that expires, and what is done outside is a list of
-- effects. Arp/Valid and Arp/Owned are the invariants of the wait queue, Arp/Pending, Arp/Answered and Arp/Silent follow a
-- request to its reply or its end.
--
-- Not modelled: spin locks (a locked part is one step), drawing and printing, device registers,
-- assembly, and the components that are still to come: page tables, put_inode, create, link and
-- unlink, insert of list_t, the network protocols but for the sending of IP packets, ARP and TCP
-- sockets, the table of the sockets and sockets of other kinds, timers, processes, the shell.
pub mod Arp
pub mod BlockDev
pub mod Dir
pub mod Files
pub mod Format
pub mod Fs
pub mod Inodes
pub mod LinkedList
pub mod Mem
pub mod Mm
pub mod Net
pub mod NetBuf
pub mod ObjectPool
pub mod Path
pub mod Pipe
pub mod Prelude
pub mod Ring
pub mod Sem
pub mod SockBuf
pub mod Tcp
pub mod Vm
