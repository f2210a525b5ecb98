-- ===== src/Tests.antt =====
-- Runs of the modelled code at concrete inputs, and the theorems at inputs that meet their hypotheses.
mod Samples
mod Csr
mod Clint
mod Hart
mod Plic
mod Bitmanip
mod Integer
mod Convert
mod Vector
mod VectorOps
mod VectorPermute
mod VectorUnary
mod Muldiv
mod Zicsr
mod CsrSet
