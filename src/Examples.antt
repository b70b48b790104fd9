-- ===== src/Examples.antt =====
-- The theorems at concrete inputs, a module for each part of the program.
mod Links
mod Partitions
mod Networks
mod Parts
mod Senders
mod Sends
mod Sockets
mod Transfers
mod Discoveries
mod Tools
